-- ===== src/Session/Between.antt =====
-- Calls of the driver that write nothing, between the steps of another call: the state may be one in which a queue that is
-- idle holds a message, or one in which nothing moves yet.
use c4l.Common.{ℕ, ◌≡◌, refl, ◌∙◌, Bool, List, [], ◌∷◌, ◌++◌, some, true}
use c4l.Message.{Msg}
use c4l.Machine.{Access, St, M, pure, ◌>>=◌, >>=-some}
use c4l.File.{can_read}
use c4l.Session.{Call, write, read, poll, ioctl, interrupt, timer, call, session}
use c4l.Session.Running.{Loose, Carries, Carries-refl, Carries-trans}
use c4l.Session.Live.{Live}
use c4l.Session.Interrupt.{can_interrupt-Live, dlyworker-Live}
use c4l.Session.Calls.{can_read-Gathers, can_select-Live, can_ioctl-Live}
use c4l.Session.Order.{AllKeepRate}

abbrev pub NotWrite : Call → Type 0
NotWrite (write ms) = ⊥
NotWrite (read count) = Unit {0}
NotWrite (poll bits) = Unit {0}
NotWrite (ioctl req) = Unit {0}
NotWrite (interrupt rounds) = Unit {0}
NotWrite timer = Unit {0}

abbrev pub AllCalls : (Call → Type 0) → List Call → Type 0
AllCalls P [] = Unit {0}
AllCalls P (c ∷ cs) = P c × AllCalls P cs

-- Nothing is accepted, and the state stays one of its kind.
abbrev pub BetweenAt : Bool → Bool → M (List Msg × List Msg) → St → Type 0
BetweenAt w v m st =
    (p : List Msg × List Msg) × (st' : St) × (m st ≡ some (p, st'))
    × Loose w v st'
    × Carries [] st st'

Live-Between :
    {A : Type 0} (m : M A)
    → Live m
    → (w v : Bool) (st : St) → Loose w v st
    → BetweenAt w v (m >>= λ _. pure ([], [])) st
Live-Between m p w v st h =
    let (a, st', run, h', c, g) = p.at w v st h in
    (([], []), st', >>=-some m (λ _. pure ([], [])) run, h', c)

reads :
    (count : ℕ) (w v : Bool) (st : St)
    → Loose w v st
    → BetweenAt w v (can_read true count >>= λ r. pure ([], r.1)) st
reads count w v st h =
    let (r, st', run, h', c, g, is) = can_read-Gathers count w v st h in
    (([], r.1), st', >>=-some (can_read true count) (λ r. pure ([], r.1)) run, h', c)

module _ (clock : List Access → ℕ × ℕ) where
  then_session :
      (c : Call) (cs : List Call) (w v : Bool) (st : St)
      → BetweenAt w v (call clock c) st
      → ((st : St) → Loose w v st → BetweenAt w v (session clock cs) st)
      → BetweenAt w v (session clock (c ∷ cs)) st
  unfolding session
  then_session c cs w v st (p, st1, run1, h1, c1) rest =
      let (q, st2, run2, h2, c2) = rest st1 h1 in
      (
        (p.0 ++ q.0, p.1 ++ q.1),
        st2,
        >>=-some (call clock c) _ run1
            ∙ >>=-some (session clock cs) (λ q. pure (p.0 ++ q.0, p.1 ++ q.1)) run2,
        h2,
        Carries-trans c1 c2,
      )

  pub session-BetweenAt :
      (cs : List Call)
      → AllKeepRate cs
      → AllCalls NotWrite cs
      → (w v : Bool) (st : St) → Loose w v st
      → BetweenAt w v (session clock cs) st
  unfolding session call
  session-BetweenAt [] k n w v st h = (([], []), st, refl, h, Carries-refl st)
  session-BetweenAt (write ms ∷ cs) k n w v st h = absurd n.0
  session-BetweenAt (read count ∷ cs) k n w v st h =
      then_session (read count) cs w v st (reads count w v st h) (session-BetweenAt cs k n.1 w v)
  session-BetweenAt (poll bits ∷ cs) k n w v st h =
      then_session (poll bits) cs w v st (Live-Between _ (can_select-Live bits) w v st h)
        (session-BetweenAt cs k n.1 w v)
  session-BetweenAt (ioctl req ∷ cs) k n w v st h =
      then_session (ioctl req) cs w v st (Live-Between _ (can_ioctl-Live req k.0) w v st h)
        (session-BetweenAt cs k.1 n.1 w v)
  session-BetweenAt (interrupt rounds ∷ cs) k n w v st h =
      then_session (interrupt rounds) cs w v st
        (Live-Between _ (can_interrupt-Live clock rounds) w v st h) (session-BetweenAt cs k n.1 w v)
  session-BetweenAt (timer ∷ cs) k n w v st h =
      then_session timer cs w v st (Live-Between _ dlyworker-Live w v st h)
        (session-BetweenAt cs k n.1 w v)

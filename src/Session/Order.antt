-- ===== src/Session/Order.antt =====
-- Over any calls of the driver the messages are sent in the order in which they were accepted, none is lost or sent twice, the
-- received ones are read in the order in which they came, and a transmit queue that holds
-- messages has something to come that gives the first its turn: the driver waits for the interrupt of a transmission that it has
-- requested, or its timer is armed.
use c4l.Common.{ℕ, ◌≡◌, ◌≢◌, refl, ◌∙◌, List, [], ◌∷◌, ◌++◌, some, true, map}
use native.Mathlib.Decide.{ℕ_discrete}
use c4l.Chip.Requests.{requests}
use c4l.Isr.Safe.{IsOpen}
use c4l.Isr.Transmit.{kept}
use c4l.Message.{Msg}
use c4l.Machine.{Access, St, M, pure, ◌>>=◌, >>=-some}
use c4l.File.{can_read, can_write}
use c4l.Session.{Call, write, read, poll, ioctl, interrupt, timer, accepted, call, session}
use c4l.Session.Running.{Loaded, Moves, waiting, Running, Carries, Carries-refl, Carries-trans}
use c4l.Session.Received.{Received, unread, Gathers, Gathers-trans, Later-refl, Later-Gathers}
use c4l.Session.Live.{Live}
use c4l.Session.Interrupt.{can_interrupt-Live, dlyworker-Live}
use c4l.Session.Write.{can_write-Carries}
use c4l.Session.Calls.{KeepsRate, can_read-Gathers, can_select-Live, can_ioctl-Live}

-- No call sets the bit rate to 0.
abbrev pub AllKeepRate : List Call → Type 0
AllKeepRate [] = Unit {0}
AllKeepRate (ioctl req ∷ cs) = KeepsRate req × AllKeepRate cs
AllKeepRate (write ms ∷ cs) = AllKeepRate cs
AllKeepRate (read count ∷ cs) = AllKeepRate cs
AllKeepRate (poll bits ∷ cs) = AllKeepRate cs
AllKeepRate (interrupt rounds ∷ cs) = AllKeepRate cs
AllKeepRate (timer ∷ cs) = AllKeepRate cs

abbrev pub CarriesAt : M (List Msg × List Msg) → St → Type 0
CarriesAt m st =
    (p : List Msg × List Msg) × (st' : St) × (m st ≡ some (p, st'))
    × Running st'
    × Carries p.0 st st'
    × Gathers p.1 st st'

nothing_accepted :
    {A : Type 0} (m : M A)
    → Live m
    → (st : St) → Running st
    → CarriesAt (m >>= λ _. pure ([], [])) st
nothing_accepted m p st h =
    let (a, st', run, h', c, g) = p.at true true st h in
    (([], []), st', >>=-some m (λ _. pure ([], [])) run, h', c, g)

writes :
    (ms : List Msg) (st : St)
    → Running st
    → CarriesAt (can_write true ms >>= λ r. pure (accepted ms r, [])) st
writes ms st h =
    let (r, st', run, h', c, g, most) = can_write-Carries ms st h in
    (
      (accepted ms r, []),
      st',
      >>=-some (can_write true ms) (λ r. pure (accepted ms r, [])) run,
      h',
      c,
      g,
    )

reads :
    (count : ℕ) (st : St) → Running st → CarriesAt (can_read true count >>= λ r. pure ([], r.1)) st
reads count st h =
    let (r, st', run, h', c, g, is) = can_read-Gathers count true true st h in
    (([], r.1), st', >>=-some (can_read true count) (λ r. pure ([], r.1)) run, h', c, g)

module _ (clock : List Access → ℕ × ℕ) where
  then_session :
      (c : Call) (cs : List Call) (st : St)
      → CarriesAt (call clock c) st
      → ((st : St) → Running st → CarriesAt (session clock cs) st)
      → CarriesAt (session clock (c ∷ cs)) st
  unfolding session
  then_session c cs st (p, st1, run1, h1, c1, g1) rest =
      let (q, st2, run2, h2, c2, g2) = rest st1 h1 in
      (
        (p.0 ++ q.0, p.1 ++ q.1),
        st2,
        >>=-some (call clock c) _ run1
            ∙ >>=-some (session clock cs) (λ q. pure (p.0 ++ q.0, p.1 ++ q.1)) run2,
        h2,
        Carries-trans c1 c2,
        Gathers-trans g1 g2,
      )

  pub session-CarriesAt :
      (cs : List Call) → AllKeepRate cs → (st : St) → Running st → CarriesAt (session clock cs) st
  unfolding session call
  session-CarriesAt [] k st h =
      (([], []), st, refl, h, Carries-refl st, Later-Gathers (Later-refl st) refl)
  session-CarriesAt (write ms ∷ cs) k st h =
      then_session (write ms) cs st (writes ms st h) (session-CarriesAt cs k)
  session-CarriesAt (read count ∷ cs) k st h =
      then_session (read count) cs st (reads count st h) (session-CarriesAt cs k)
  session-CarriesAt (poll bits ∷ cs) k st h =
      then_session (poll bits) cs st (nothing_accepted _ (can_select-Live bits) st h)
        (session-CarriesAt cs k)
  session-CarriesAt (ioctl req ∷ cs) k st h =
      then_session (ioctl req) cs st (nothing_accepted _ (can_ioctl-Live req k.0) st h)
        (session-CarriesAt cs k.1)
  session-CarriesAt (interrupt rounds ∷ cs) k st h =
      then_session (interrupt rounds) cs st
        (nothing_accepted _ (can_interrupt-Live clock rounds) st h) (session-CarriesAt cs k)
  session-CarriesAt (timer ∷ cs) k st h =
      then_session timer cs st (nothing_accepted _ dlyworker-Live st h) (session-CarriesAt cs k)

-- Over any calls on a running device that set no bit rate of 0, the transmissions requested are those of the messages
-- `sent`, one request for each, with its frame in the transmit buffer. What was waiting, and then all that the writes
-- accepted, is what was sent, and then what still waits, in this order, up to the delay and the clamped length.
pub session_in_order :
    (clock : List Access → ℕ × ℕ) (cs : List Call) (st : St)
    → Running st
    → AllKeepRate cs
    → (ms : List Msg) × (got : List Msg) × (st' : St) × (session clock cs st
        ≡ some ((ms, got), st'))
      × ((logs : List (List Access)) × (sent : List Msg) × (requests st.vars.base st'.log
            ≡ requests st.vars.base st.log ++ logs)
          × Loaded st.vars.base logs sent
          × (map kept (waiting st ++ ms) ≡ sent ++ map kept (waiting st')))
session_in_order clock cs st h k =
    let ((ms, got), st', run, h', c, g) = session-CarriesAt clock cs k st h in
    (ms, got, st', run, (c.logs, c.sent, c.asked, c.loaded, c.in_order))

-- Over any calls on a running device that set no bit rate of 0, what was unread, and then the messages `received`, are
-- those that the reads gave to the user, and then those still unread, in this order. The received messages were made one
-- after another, each out of a frame that the same controller answered, or as an error message.
pub session_reads_in_order :
    (clock : List Access → ℕ × ℕ) (cs : List Call) (st : St)
    → Running st
    → AllKeepRate cs
    → (ms : List Msg) × (got : List Msg) × (st' : St) × (session clock cs st
        ≡ some ((ms, got), st'))
      × ((received : List Msg) × Received received st st'
          × (unread st ++ received ≡ got ++ unread st'))
session_reads_in_order clock cs st h k =
    let ((ms, got), st', run, h', c, g) = session-CarriesAt clock cs k st h in
    (ms, got, st', run, (g.received, g.made, g.rx_order))

-- Messages that wait in a running queue have something to come.
pub Running-Moves : (st : St) → Running st → waiting st ≢ [] → Moves st
Running-Moves st r some_wait = elim (ℕ_discrete st.dev.txq.idle 0) [
  | yes busy ↦ r.moves refl busy
  | no idle ↦ absurd (some_wait (r.empty refl idle))
]

-- Any calls on a running device that set no bit rate of 0 end without a fault, and leave both queues valid. If messages
-- wait then, the driver waits for the interrupt of a transmission that it has requested (`txinprogress` is 1), or the first message has
-- no delay of its own any more, and the device's timer is armed: it has been started, and has not expired since.
pub session-Moves :
    (clock : List Access → ℕ × ℕ) (cs : List Call) (st : St)
    → Running st
    → AllKeepRate cs
    → (ms : List Msg) × (got : List Msg) × (st' : St) × (session clock cs st
        ≡ some ((ms, got), st'))
      × IsOpen st'
      × (waiting st' ≢ [] → Moves st')
session-Moves clock cs st h k =
    let ((ms, got), st', run, h', c, g) = session-CarriesAt clock cs k st h in
    (ms, got, st', run, h'.opened, Running-Moves st' h')

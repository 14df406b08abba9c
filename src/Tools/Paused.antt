-- ===== src/Tools/Paused.antt =====
-- Calls of the driver that do not read.
use c4l.Common.{
  true, subst, ℕ, ◌≡◌, refl, ◌∙◌, sym, ap, ap₂, Option, none, some, List, [], ◌∷◌, ◌++◌,
}
use c4l.Message.{Msg}
use c4l.Machine.{Access, St, M, pure, ◌>>=◌}
use c4l.File.{can_write, can_select}
use c4l.Device.Ioctl.{can_ioctl}
use c4l.Isr.{can_interrupt, dlyworker}
use c4l.Session.{Call, write, read, poll, ioctl, interrupt, timer, call, session, accepted}
use c4l.Session.Running.{Running}
use c4l.Session.Received.{Gathers}
use c4l.Session.Between.{AllCalls}
use c4l.Session.Order.{AllKeepRate, session-CarriesAt}

abbrev pub NotRead : Call → Type 0
NotRead (write ms) = Unit {0}
NotRead (read count) = ⊥
NotRead (poll bits) = Unit {0}
NotRead (ioctl req) = Unit {0}
NotRead (interrupt rounds) = Unit {0}
NotRead timer = Unit {0}

-- A part that has run, and what came before.
>>=-inv :
    {A B : Type 0} (m : M A) (f : A → M B) (st st' : St) (b : B)
    → (m >>= f) st ≡ some (b, st')
    → (a : A) × (st1 : St) × (m st ≡ some (a, st1)) × (f a st1 ≡ some (b, st'))
>>=-inv {A} {B} m f st st' b e = from (m st) refl e
  where
    from :
        (o : Option (A × St))
        → m st ≡ o
        → elim o [ none ↦ none | some (a, s) ↦ f a s ] ≡ some (b, st')
        → (a : A) × (st1 : St) × (m st ≡ some (a, st1)) × (f a st1 ≡ some (b, st'))
    from none is e = absurd (cc)
    from (some (a, s)) is e = (a, s, is, e)

pure_is :
    {A : Type 0} {a b : A} {s s' : St}
    → ◌≡◌ {A = Option (A × St)} (some (a, s)) (some (b, s'))
    → a ≡ b
pure_is e = cc

abbrev pub Both : Type 0
Both = List Msg × List Msg

abbrev both_app : Both → Both → Both
both_app p q = (p.0 ++ q.0, p.1 ++ q.1)

-- One part of the result of a call.
result_part :
    {A : Type 0} (part : Both → List Msg) (m : M A) (f : A → Both) (st st' : St) (p : Both)
    → ((a : A) → part (f a) ≡ [])
    → (m >>= λ a. pure (f a)) st ≡ some (p, st')
    → part p ≡ []
result_part part m f st st' p is e =
    let (a, st1, run, got) = >>=-inv m (λ a. pure (f a)) st st' p e in
    ap part (sym (pure_is got)) ∙ is a

module _ (clock : List Access → ℕ × ℕ) where
  call_gives :
      (c : Call) (st st' : St) (p : Both) → NotRead c → call clock c st ≡ some (p, st') → p.1 ≡ []
  unfolding call
  call_gives (write ms) st st' p h e =
      result_part (λ p. p.1) (can_write true ms) (λ r. (accepted ms r, [])) st st' p (λ a. refl) e
  call_gives (read count) st st' p h e = absurd h
  call_gives (poll bits) st st' p h e =
      result_part (λ p. p.1) (can_select bits) (λ r. ([], [])) st st' p (λ a. refl) e
  call_gives (ioctl req) st st' p h e =
      result_part (λ p. p.1) (can_ioctl true true req) (λ r. ([], [])) st st' p (λ a. refl) e
  call_gives (interrupt rounds) st st' p h e =
      result_part (λ p. p.1) (can_interrupt clock rounds) (λ r. ([], [])) st st' p (λ a. refl) e
  call_gives timer st st' p h e =
      result_part (λ p. p.1) dlyworker (λ r. ([], [])) st st' p (λ a. refl) e

  -- What holds of each call holds of all.
  session_part :
      (part : Both → List Msg) (P : Call → Type 0)
      → part ([], []) ≡ []
      → ((p q : Both) → part p ≡ [] → part q ≡ [] → part (both_app p q) ≡ [])
      → ((c : Call) (st st' : St) (p : Both) → P c → call clock c st ≡ some (p, st') → part p ≡ [])
      → (cs : List Call) (st st' : St) (p : Both) → AllCalls P cs
      → session clock cs st ≡ some (p, st')
      → part p ≡ []
  unfolding session
  session_part part P empty both one [] st st' p h e = ap part (sym (pure_is e)) ∙ empty
  session_part part P empty both one (c ∷ cs) st st' p h e =
      let (p1, st1, run1, rest) =
        >>=-inv (call clock c) (λ (p1 : Both). session clock cs >>= λ q. pure (both_app p1 q)) st
          st' p e in
      let (q, st2, run2, got) =
        >>=-inv (session clock cs) (λ q. pure (both_app p1 q)) st1 st' p rest in
      ap part (sym (pure_is got))
      ∙ both p1 q (one c st st1 p1 h.0 run1)
          (session_part part P empty both one cs st1 st2 q h.1 run2)

  nothing_given :
      (cs : List Call) (st st' : St) (p : Both)
      → AllCalls NotRead cs
      → session clock cs st ≡ some (p, st')
      → p.1 ≡ []
  nothing_given =
      session_part (λ p. p.1) NotRead refl (λ p q a b. ap₂ (λ (x y : List Msg). x ++ y) a b)
        call_gives

  -- The calls between two reads.
  pub session_gives_nothing :
      (cs : List Call) (st : St)
      → AllKeepRate cs
      → AllCalls NotRead cs
      → Running st
      → (p : Both) × (st' : St) × (session clock cs st ≡ some (p, st'))
        × Running st'
        × Gathers [] st st'
  session_gives_nothing cs st k free h =
      let (p, st', run, h', c, g) = session-CarriesAt clock cs k st h in
      (
        p,
        st',
        run,
        h',
        subst (λ (l : List Msg). Gathers l st st') (nothing_given cs st st' p free run) g,
      )

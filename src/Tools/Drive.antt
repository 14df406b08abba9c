-- ===== src/Tools/Drive.antt =====
-- The loops of can_send.c around `write`: what is written next, and what a program does after each write.
use c4l.Common.{
  sym, subst, ℕ, ◌≤◌, ◌≡◌, refl, ◌∙◌, ap, some, true, List, [], ◌∷◌, ◌++◌, take, length,
}
use mathlib.Core.List.{append-nil}
use c4l.Message.{Msg}
use c4l.Machine.{Access, St, M, pure, ◌>>=◌, >>=-some, Result, ok, err}
use c4l.File.{can_write}
use c4l.Session.{Call, session, accepted}
use c4l.Session.Running.{Running, Carries, Carries-refl, Carries-trans}
use c4l.Session.Order.{AllKeepRate}
use c4l.Session.Write.{can_write-Carries, AtMost}
use c4l.Session.Between.{NotWrite, AllCalls, session-BetweenAt}

-- A program's variables after a write, which is not the last one, or is.
pub data Next (S : Type 0) : Type 0 where
  goes_on : S → Next S
  ends : S → Next S

-- The driver's other calls between one write and the next one.
abbrev pub ArePauses : List (List Call) → Type 0
ArePauses [] = Unit {0}
ArePauses (cs ∷ more) = AllKeepRate cs × AllCalls NotWrite cs × ArePauses more

-- The loop has ended, if there was a write.
abbrev pub HasEnded : {S : Type 0} → List (List Call) → Next S → Type 0
HasEnded [] q = Unit {0}
HasEnded (cs ∷ more) (ends s) = Unit {0}
HasEnded (cs ∷ more) (goes_on s) = ⊥

module _ {S : Type 0} (to_send : S → List Msg) (after : S → Result → Next S) where
  abbrev pub carry_on : (S → M (List Msg × Next S)) → List Msg → Next S → M (List Msg × Next S)
  carry_on rest ms (ends s) = pure (ms, ends s)
  carry_on rest ms (goes_on s) = rest s >>= λ q. pure (ms ++ q.0, q.1)

  -- The loop, for as many writes as there are pauses: the messages that were accepted, and the variables.
  unfoldable pub drive : (List Access → ℕ × ℕ) → List (List Call) → S → M (List Msg × Next S)
  drive clock [] s = pure ([], goes_on s)
  drive clock (cs ∷ more) s = can_write true (to_send s) >>= λ r.
      session clock cs >>= λ _. carry_on (drive clock more) (accepted (to_send s) r) (after s r)

  -- What the loop does as far as it depends on the results of the writes.
  pub data Runs : S → List Msg → Next S → Type 0 where
    stays : (s : S) → Runs s [] (goes_on s)
    last :
        (s s' : S) (n : ℕ)
        → n ≤ length (to_send s)
        → after s (ok n) ≡ ends s'
        → Runs s (take n (to_send s)) (ends s')
    round :
        (s s' : S) (n : ℕ) (ms : List Msg) (q : Next S)
        → n ≤ length (to_send s)
        → after s (ok n) ≡ goes_on s'
        → Runs s' ms q
        → Runs s (take n (to_send s) ++ ms) q

  -- The loop has not ended within the writes: it has not begun, or it has gone on after a write.
  abbrev pub Left : List (List Call) → S → Next S → Type 0
  Left [] s q = q ≡ goes_on s
  Left (cs ∷ more) s (ends s') = Unit {0}
  Left (cs ∷ more) s (goes_on s') = (s1 : S) × (n : ℕ) × (after s1 (ok n) ≡ goes_on s')

  later-Left :
      (cs : List Call) (more : List (List Call)) (s s' : S) (n : ℕ) (q : Next S)
      → after s (ok n) ≡ goes_on s'
      → Left more s' q
      → Left (cs ∷ more) s q
  later-Left cs [] s s' n (ends s2) is left = tt
  later-Left cs [] s s' n (goes_on s2) is left = (s, n, is ∙ sym left)
  later-Left cs (_ ∷ more) s s' n (ends s2) is left = tt
  later-Left cs (_ ∷ more) s s' n (goes_on s2) is left = left

  -- A loop that does not go on after a write has ended, if there was one.
  pub Left-HasEnded :
      (pauses : List (List Call)) (s : S) (q : Next S)
      → ((s1 s2 : S) (n : ℕ) → after s1 (ok n) ≡ goes_on s2 → ⊥)
      → Left pauses s q
      → HasEnded pauses q
  Left-HasEnded [] s q never left = tt
  Left-HasEnded (cs ∷ more) s (ends s') never left = tt
  Left-HasEnded (cs ∷ more) s (goes_on s') never (s1, n, is) = never s1 s' n is

  abbrev pub Drives : (List Access → ℕ × ℕ) → List (List Call) → S → St → Type 0
  Drives clock pauses s st =
      (ms : List Msg) × (q : Next S) × (st' : St) × (drive clock pauses s st ≡ some ((ms, q), st'))
      × Running st'
      × Carries ms st st'
      × Runs s ms q
      × Left pauses s q

  -- The rest of a round, by what the program does after the write.
  rest_of_round :
      (clock : List Access → ℕ × ℕ) (cs : List Call) (more : List (List Call)) (s : S) (st : St)
      (r : Result) (st1 st2 : St) (p : List Msg × List Msg) (next : Next S)
      → can_write true (to_send s) st ≡ some (r, st1)
      → session clock cs st1 ≡ some (p, st2)
      → AtMost (to_send s) r
      → Running st2
      → Carries (accepted (to_send s) r) st st2
      → after s r ≡ next
      → ((s' : S) → Drives clock more s' st2)
      → Drives clock (cs ∷ more) s st
  unfolding drive
  rest_of_round clock cs more s st (err e) st1 st2 p next run1 run2 most h c is rest = absurd most
  rest_of_round clock cs more s st (ok n) st1 st2 p (ends s') run1 run2 most h c is rest = (
    take n (to_send s),
    ends s',
    st2,
    >>=-some (can_write true (to_send s)) _ run1
        ∙ >>=-some (session clock cs) _ run2
        ∙ ap (λ (next : Next S). carry_on (drive clock more) (take n (to_send s)) next st2) is,
    h,
    c,
    last s s' n most is,
    tt,
  )
  rest_of_round clock cs more s st (ok n) st1 st2 p (goes_on s') run1 run2 most h c is rest =
      let (ms, q, st3, run3, h3, c3, runs, left) = rest s' in
      (
        take n (to_send s) ++ ms,
        q,
        st3,
        >>=-some (can_write true (to_send s)) _ run1
            ∙ >>=-some (session clock cs) _ run2
            ∙ ap (λ (next : Next S). carry_on (drive clock more) (take n (to_send s)) next st2) is
            ∙ >>=-some (drive clock more s') (λ q. pure (take n (to_send s) ++ q.0, q.1)) run3,
        h3,
        Carries-trans c c3,
        round s s' n ms q most is runs,
        later-Left cs more s s' n q is left,
      )

  -- On a running device the loop comes to its end, or to that of the pauses, and the driver carries the accepted messages.
  pub drive_runs :
      (clock : List Access → ℕ × ℕ) (pauses : List (List Call)) (s : S) (st : St)
      → ArePauses pauses
      → Running st
      → Drives clock pauses s st
  unfolding drive
  drive_runs clock [] s st p h = ([], goes_on s, st, refl, h, Carries-refl st, stays s, refl)
  drive_runs clock (cs ∷ more) s st (rates, quiet, others) h =
      let (r, st1, run1, h1, c1, g1, most) = can_write-Carries (to_send s) st h in
      let (p, st2, run2, h2, c2) = session-BetweenAt clock cs rates quiet true true st1 h1 in
      rest_of_round clock cs more s st r st1 st2 p (after s r) run1 run2 most h2
        (subst (λ (l : List Msg). Carries l st st2) (append-nil _) (Carries-trans c1 c2)) refl
        (λ s'. drive_runs clock more s' st2 others h2)

-- ===== src/Tools/Watch/Rounds.antt =====
-- The loop of can_verify checks all messages that come in, in their order.
use c4l.Common.{
  ℕ, ◌≡◌, refl, ◌∙◌, sym, ap, subst, some, List, [], ◌∷◌, ◌++◌, Bool, true, false, take, length,
  ltb,
}
use c4l.Message.{Msg}
use c4l.Machine.{Access, St, >>=-some, Result, ok}
use c4l.File.{PollBits, can_read, can_select}
use c4l.File.Poll.{poll_bits, can_select_lem}
use c4l.Session.{Call, session}
use c4l.Session.Running.{Running, waiting}
use c4l.Session.Received.{Gathers, Gathers-trans, Later-Gathers, Later-refl, Received, unread}
use c4l.Session.Calls.{can_read-Gathers}
use c4l.Tools.Verify.{Verifier, Complaint, fresh, verify_all}
use c4l.Tools.Accepts.{MatchFrom}
use c4l.Tools.Detects.{verify_all_iff}
use c4l.Tools.Drive.{Next, goes_on, ends}
use c4l.Tools.Paused.{session_gives_nothing}
use c4l.Tools.Watch.{watch}
use c4l.Tools.Watch.Parts.{
  Tells, AreWaits, IsVerified, Watches, ready_lem, checks_read, and_rest-IsVerified, ltb_some,
}

module _ (clock : List Access → ℕ × ℕ) (bits : PollBits) (ready : ℕ → Bool)
    (tells : Tells bits ready) (extd : Bool) where
  -- A round in which `select` goes on waiting.
  keeps_waiting :
      (cs : List Call) (more : List (List Call)) (v : Verifier) (st st1 : St)
      (p : List Msg × List Msg)
      → session clock cs st ≡ some (p, st1)
      → Running st1
      → Gathers [] st st1
      → unread st1 ≡ []
      → Watches clock bits ready extd more v st1
      → Watches clock bits ready extd (cs ∷ more) v st
  unfolding watch
  keeps_waiting cs more v st st1 p run1 h1 g1 none_unread
        (got, out, next, st2, run2, h2, g2, checked) =
      (
        got,
        out,
        next,
        st2,
        >>=-some (session clock cs) _ run1
            ∙ >>=-some (can_select bits) _ (can_select_lem bits st1 h1.opened)
            ∙ rw no_message run2,
        h2,
        Gathers-trans g1 g2,
        checked,
      )
    where
      no_message : ready (poll_bits bits (unread st1) (waiting st1)) ≡ false
      no_message =
          ready_lem bits ready (unread st1) (waiting st1) tells
          ∙ ap (λ (u : List Msg). ltb 0 (length u)) none_unread

  -- A round in which messages are read and checked.
  reads_some :
      (cs : List Call) (more : List (List Call)) (v : Verifier) (st st1 : St)
      (p : List Msg × List Msg) (m : Msg) (l : List Msg)
      → session clock cs st ≡ some (p, st1)
      → Running st1
      → Gathers [] st st1
      → unread st1 ≡ m ∷ l
      → ((v' : Verifier) (st2 : St) → Running st2 → Watches clock bits ready extd more v' st2)
      → Watches clock bits ready extd (cs ∷ more) v st
  unfolding watch
  reads_some cs more v st st1 p m l run1 h1 g1 some_unread rest =
      let (r, st2, run2, h2, c2, g2, is) = can_read-Gathers 9 true true st1 h1 in
      let rx : List Msg = m ∷ take 8 l in
      let result = is ∙ ap (λ (u : List Msg). (ok (length (take 9 u)), take 9 u)) some_unread in
      let (got, out, next, st3, run3, h3, g3, checked) = rest (verify_all extd rx v).0 st2 h2 in
      (
        rx ++ got,
        (verify_all extd rx v).1 ++ out,
        next,
        st3,
        >>=-some (session clock cs) _ run1
            ∙ >>=-some (can_select bits) _ (can_select_lem bits st1 h1.opened)
            ∙ rw (comes some_unread) (
                >>=-some (can_read true 9) _ (run2 ∙ ap (λ r. some (r, st2)) result)
                ∙ checks_read extd (watch clock bits ready extd more) v m (take 8 l) run3),
        h3,
        Gathers-trans g1 (
            Gathers-trans
              (subst (λ (u : List Msg). Gathers u st1 st2)
                (ap (λ (r : Result × List Msg). r.1) result) g2)
              g3),
        and_rest-IsVerified extd v rx got out next checked,
      )
    where
      comes : unread st1 ≡ m ∷ l → ready (poll_bits bits (unread st1) (waiting st1)) ≡ true
      comes e =
          ready_lem bits ready (unread st1) (waiting st1) tells
          ∙ ap (λ (u : List Msg). ltb 0 (length u)) e
          ∙ ltb_some (length l)

  one_round :
      (cs : List Call) (more : List (List Call)) (v : Verifier) (st st1 : St)
      (p : List Msg × List Msg) (l : List Msg)
      → session clock cs st ≡ some (p, st1)
      → Running st1
      → Gathers [] st st1
      → unread st1 ≡ l
      → ((v' : Verifier) (st2 : St) → Running st2 → Watches clock bits ready extd more v' st2)
      → Watches clock bits ready extd (cs ∷ more) v st
  one_round cs more v st st1 p [] run1 h1 g1 is rest =
      keeps_waiting cs more v st st1 p run1 h1 g1 is (rest v st1 h1)
  one_round cs more v st st1 p (m ∷ l) run1 h1 g1 is rest =
      reads_some cs more v st st1 p m l run1 h1 g1 is rest

  watch_all :
      (waits : List (List Call)) (v : Verifier) (st : St)
      → AreWaits waits
      → Running st
      → Watches clock bits ready extd waits v st
  unfolding watch
  watch_all [] v st w h = (
    [],
    [],
    goes_on v,
    st,
    refl,
    h,
    Later-Gathers (Later-refl st) refl,
    unfold verify_all in refl,
  )
  watch_all (cs ∷ more) v st (rates, quiet, others) h =
      let (p, st1, run1, h1, g1) = session_gives_nothing clock cs st rates quiet h in
      one_round cs more v st st1 p (unread st1) run1 h1 g1 refl
        (λ v' st2. watch_all more v' st2 others)

-- The loop of can_verify does not come to an end by itself. From a running device, with any calls of the driver while it
-- waits that read nothing and set no bit rate of 0, it reads and checks the messages that are unread, and those that come in,
-- one after another: with those still unread they are all of them. It has complained of nothing just if what it has
-- read is the stream of test 10 from its first message on, as far as the check goes.
pub watch_complains :
    (clock : List Access → ℕ × ℕ) (bits : PollBits) (ready : ℕ → Bool) (extd : Bool)
    (waits : List (List Call)) (st : St)
    → Tells bits ready
    → AreWaits waits
    → Running st
    → (got : List Msg) × (out : List Complaint) × (v : Verifier) × (st' : St) × (watch clock bits
          ready extd waits fresh st
        ≡ some ((got, out, goes_on v), st'))
      × ((received : List Msg) × Received received st st'
          × (unread st ++ received ≡ got ++ unread st'))
      × (MatchFrom extd 0 got → out ≡ [])
      × (out ≡ [] → MatchFrom extd 0 got)
watch_complains clock bits ready extd waits st tells w h =
    let (got, out, next, st', run, h', g, checked) =
      watch_all clock bits ready tells extd waits fresh st w h in
    result got out next st' run g checked
  where
    result :
        (got : List Msg) (out : List Complaint) (next : Next Verifier) (st' : St)
        → watch clock bits ready extd waits fresh st ≡ some ((got, out, next), st')
        → Gathers got st st'
        → IsVerified extd fresh got out next
        → (got : List Msg) × (out : List Complaint) × (v : Verifier) × (st' : St) × (watch clock
              bits ready extd waits fresh st
            ≡ some ((got, out, goes_on v), st'))
          × ((received : List Msg) × Received received st st'
              × (unread st ++ received ≡ got ++ unread st'))
          × (MatchFrom extd 0 got → out ≡ [])
          × (out ≡ [] → MatchFrom extd 0 got)
    result got out (ends v) st' run g checked = absurd checked
    result got out (goes_on v) st' run g checked =
        let same = ap (λ (r : Verifier × List Complaint). r.1) checked in
        (
          got,
          out,
          v,
          st',
          run,
          (g.received, g.made, g.rx_order),
          (λ h. sym same ∙ (verify_all_iff extd got).0 h),
          (λ e. (verify_all_iff extd got).1 (same ∙ e)),
        )

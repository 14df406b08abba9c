-- ===== src/Tools/Watch.antt =====
-- can_verify.c: verify, the loop that waits for messages, reads and checks them.
pub mod Parts
pub mod Rounds
use c4l.Common.{ℕ, zero, suc, List, [], ◌∷◌, ◌++◌, Bool, true, false, take}
use c4l.Message.{Msg}
use c4l.Machine.{Access, M, pure, ◌>>=◌, Result, ok, err}
use c4l.File.{PollBits, can_read, can_select}
use c4l.Session.{Call, session}
use c4l.Tools.Sequence.{seqn}
use c4l.Tools.Verify.{Verifier, Complaint, verify_all}
use c4l.Tools.Drive.{Next, goes_on, ends}

-- What has come of the loop: the messages that were read, the complaints, and the variables.
abbrev pub Outcome : Type 0
Outcome = List Msg × List Complaint × Next Verifier

abbrev pub and_rest : List Msg → List Complaint → Outcome → Outcome
and_rest ms out (ms', out', next) = (ms ++ ms', out ++ out', next)

-- Once messages were read. A read that gives none is the end.
abbrev pub check_read : Bool → (Verifier → M Outcome) → Verifier → Result → List Msg → M Outcome
check_read extd rest v (err e) rx = pure ([], [], ends v)
check_read extd rest v (ok zero) rx = pure ([], [], ends v)
check_read extd rest v (ok (suc got)) rx =
    let (v', out) = verify_all extd (take (suc got) rx) v in
    rest v' >>= λ q. pure (and_rest (take (suc got) rx) out q)

-- One round after another: the driver's other calls while `select` waits, and then the bits that can_select returns. `ready` is
-- whether `select` returns for them.
unfoldable pub watch :
    (List Access → ℕ × ℕ) → PollBits → (ℕ → Bool) → Bool → List (List Call) → Verifier → M Outcome
unfolding verify_all
watch clock bits ready extd [] v = pure ([], [], goes_on v)
watch clock bits ready extd (cs ∷ more) v = session clock cs >>= λ _. can_select bits >>= λ mask.
    elim (ready mask) [
      | true ↦ can_read true seqn >>= λ (r, rx).
          check_read extd (watch clock bits ready extd more) v r rx
      | false ↦ watch clock bits ready extd more v
    ]

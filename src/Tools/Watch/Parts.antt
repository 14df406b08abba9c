-- ===== src/Tools/Watch/Parts.antt =====
-- Parts of the loop of can_verify: what `select` waits for, and what becomes of the messages that were read.
use c4l.Common.{
  ℕ, suc, ◌≡◌, refl, ◌∙◌, sym, ap, arith, some, List, [], ◌∷◌, ◌++◌, Bool, true, false, take,
  length, ltb, bit_or,
}
use mathlib.Core.List.{append_assoc}
use c4l.Message.{Msg}
use c4l.Machine.{Access, M, St, pure, ◌>>=◌, >>=-some, ok}
use c4l.File.{PollBits}
use c4l.File.Poll.{poll_bits}
use c4l.Session.{Call}
use c4l.Session.Running.{Running}
use c4l.Session.Received.{Gathers}
use c4l.Session.Order.{AllKeepRate}
use c4l.Tools.Verify.{verify_message, Verifier, Complaint, verify_all}
use c4l.Tools.Drive.{Next, goes_on, ends}
use c4l.Session.Between.{AllCalls}
use c4l.Tools.Paused.{NotRead}
use c4l.Tools.Watch.{Outcome, and_rest, check_read, watch}

-- `select` returns just for a device that is readable.
pub record Tells (bits : PollBits) (ready : ℕ → Bool) : Type 0 where
  pub readable_only : ready bits.readable ≡ true
  pub both : ready (bit_or bits.readable bits.writable) ≡ true
  pub neither : ready 0 ≡ false
  pub writable_only : ready (bit_or 0 bits.writable) ≡ false

pub ready_lem :
    (bits : PollBits) (ready : ℕ → Bool) (received sending : List Msg)
    → Tells bits ready
    → ready (poll_bits bits received sending) ≡ ltb 0 (length received)
unfolding poll_bits
ready_lem bits ready received sending t =
    ground (arith, t.readable_only, t.both, t.neither, t.writable_only)

-- The driver's other calls while the loop waits.
abbrev pub AreWaits : List (List Call) → Type 0
AreWaits [] = Unit {0}
AreWaits (cs ∷ more) = AllKeepRate cs × AllCalls NotRead cs × AreWaits more

verify_all-append :
    (extd : Bool) (a b : List Msg) (v : Verifier)
    → let p = verify_all extd a v in
      let q = verify_all extd b p.0 in verify_all extd (a ++ b) v ≡ (q.0, p.1 ++ q.1)
unfolding verify_all
verify_all-append extd [] b v = refl
verify_all-append extd (m ∷ a) b v =
    let one = verify_message extd m v in
    let p = verify_all extd a one.0 in
    let q = verify_all extd b p.0 in
    ap (λ (r : Verifier × List Complaint). (r.0, one.1 ++ r.1)) (verify_all-append extd a b one.0)
    ∙ ap (λ (l : List Complaint). (q.0, l)) (sym (append_assoc one.1 p.1 q.1))

-- What has been read and complained of is what verify_all says of it, and the loop goes on.
abbrev pub IsVerified : Bool → Verifier → List Msg → List Complaint → Next Verifier → Type 0
IsVerified extd v got out (ends v') = ⊥
IsVerified extd v got out (goes_on v') = verify_all extd got v ≡ (v', out)

abbrev pub Watches :
    (List Access → ℕ × ℕ) → PollBits → (ℕ → Bool) → Bool → List (List Call) → Verifier → St → Type 0
Watches clock bits ready extd waits v st =
    (got : List Msg) × (out : List Complaint) × (next : Next Verifier) × (st' : St) × (watch clock
        bits ready extd waits v st
      ≡ some ((got, out, next), st'))
    × Running st'
    × Gathers got st st'
    × IsVerified extd v got out next

pub and_rest-IsVerified :
    (extd : Bool) (v : Verifier) (a b : List Msg) (out : List Complaint) (next : Next Verifier)
    → IsVerified extd (verify_all extd a v).0 b out next
    → IsVerified extd v (a ++ b) ((verify_all extd a v).1 ++ out) next
and_rest-IsVerified extd v a b out (ends v') h = h
and_rest-IsVerified extd v a b out (goes_on v') h =
    verify_all-append extd a b v
    ∙ ap (λ (r : Verifier × List Complaint). (r.0, (verify_all extd a v).1 ++ r.1)) h

take_all : (l : List Msg) → take (length l) l ≡ l
take_all [] = refl
take_all (m ∷ l) = ap (◌∷◌ m) (take_all l)

pub ltb_some : (n : ℕ) → ltb 0 (suc n) ≡ true
ltb_some n = ground arith

-- The messages that were read, and then the rest.
pub checks_read :
    (extd : Bool) (rest : Verifier → M Outcome) (v : Verifier) (m : Msg) (l : List Msg)
    {q : Outcome} {st st' : St}
    → rest (verify_all extd (m ∷ l) v).0 st ≡ some (q, st')
    → check_read extd rest v (ok (length (m ∷ l))) (m ∷ l) st
      ≡ some (and_rest (m ∷ l) (verify_all extd (m ∷ l) v).1 q, st')
checks_read extd rest v m l {q} {st} {st'} run =
    ap
      (λ (rx : List Msg).
        (rest (verify_all extd rx v).0 >>= λ q. pure (and_rest rx (verify_all extd rx v).1 q)) st)
      (take_all (m ∷ l))
    ∙ >>=-some (rest (verify_all extd (m ∷ l) v).0) _ run

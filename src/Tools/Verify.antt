-- ===== src/Tools/Verify.antt =====
-- can_verify.c: the check of the received messages.
use c4l.Common.{
  ℕ, ◌+◌, ◌^◌, ◌%◌, List, [], ◌∷◌, ◌++◌, Bool, true, ◌&&◌, ◌||◌, not, ◌==◌, if◌then◌else◌, add32,
  get_or, take, from_short,
}
use c4l.Message.{Msg}
use c4l.Tools.Bytes.{le_value}
use c4l.Tools.Sequence.{seqn}

-- The static variables of verify_message, and `errs`.
pub record Verifier : Type 0 where
  pub iseq : ℕ
  pub seq : ℕ
  pub id : ℕ
  pub errs : ℕ

abbrev pub fresh : Verifier
fresh = record { iseq = 0; seq = 0; id = 0; errs = 0 }

-- The complaints that are printed: what was received, what was expected, and in which sequence.
pub data Complaint : Type 0 where
  wrong_id : ℕ → ℕ → ℕ → Complaint
  wrong_length : ℕ → ℕ → ℕ → Complaint
  wrong_data : ℕ → ℕ → Complaint

-- The check of the data by the length, which is the expected one.
abbrev pub good_data : ℕ → ℕ → List ℕ → Bool
good_data seq length bytes =
    if length == 1
    then seq % 2 ^ 8 == get_or bytes 0 0
    else if length == 2
    then seq % 2 ^ 16 == le_value (take 2 bytes)
    else if length == 4
    then seq % 2 ^ 32 == le_value (take 4 bytes)
    else if length == 8
    then seq == le_value (take 8 bytes)
    else true

-- The next message that is expected, after one of the expected length.
abbrev pub count_msg : Verifier → Verifier
count_msg v =
    if v.iseq + 1 == seqn
    then record v { iseq = 0; seq = (v.seq + 1) % 2 ^ 64 }
    else record v { iseq = v.iseq + 1 }

abbrev pub check_id : Msg → Verifier → Verifier × List Complaint
check_id m v =
    if v.id == m.id
    then (v, [])
    else (record v { errs = add32 v.errs 1; id = m.id }, wrong_id m.id v.id v.seq ∷ [])

abbrev pub check_body : Msg → Verifier → Verifier × List Complaint
check_body m v =
    if v.iseq == from_short m.length
    then (
      count_msg v,
      if good_data v.seq (from_short m.length) m.bytes
          then []
          else wrong_data (from_short m.length) v.seq ∷ [],
    )
    else (v, wrong_length (from_short m.length) v.iseq v.seq ∷ [])

abbrev pub next_id : Bool → Verifier → Verifier
next_id extd v =
    if (extd && v.id == 536870906) || (not extd && v.id == 2042)
    then record v { id = 0 }
    else record v { id = add32 v.id 1 }

unfoldable pub verify_message : Bool → Msg → Verifier → Verifier × List Complaint
unfolding le_value
verify_message extd m v =
    let (v1, ids) = check_id m v in
    let (v2, bodies) = check_body m v1 in (next_id extd v2, ids ++ bodies)

-- The messages of a buffer, one after another.
unfoldable pub verify_all : Bool → List Msg → Verifier → Verifier × List Complaint
unfolding verify_message
verify_all extd [] v = (v, [])
verify_all extd (m ∷ ms) v =
    let (v1, out) = verify_message extd m v in
    let (v2, outs) = verify_all extd ms v1 in (v2, out ++ outs)

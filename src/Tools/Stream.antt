-- ===== src/Tools/Stream.antt =====
-- The messages of test 10 of can_send as one stream.
use c4l.Common.{
  ℕ, suc, ◌+◌, ◌*◌, ◌/◌, ◌%◌, ◌^◌, ◌<◌, ◌≡◌, inl, inr, refl, ◌∙◌, ap, ap₂, arith, List, [], ◌∷◌,
  map, Bool, true, false, if◌then◌else◌, Bool-cases, add32,
}
use c4l.Message.{Msg}
use c4l.Tools.Bytes.{le_bytes, le_value-le_bytes}
use c4l.Tools.Sequence.{nine, first_seq, update_seq, reset_ids, ids_wrap, advance_id, count_data}

-- The number of ids that are used.
abbrev pub period : Bool → ℕ
period extd = if extd then 536870907 else 2043

abbrev pub msg_of : Bool → ℕ → ℕ → ℕ → Msg
msg_of extd id length count = record {
  flags = if extd then 4 else 0;
  cob = 0;
  id = id;
  tv_sec = 0;
  tv_usec = 0;
  length = length;
  bytes = le_bytes 8 count;
}

-- Message `n`: the ids and the lengths go round, and the data is the number of the sequence.
abbrev pub nth_msg : Bool → ℕ → Msg
nth_msg extd n = msg_of extd (n % period extd) (n % 9) (n / 9 % 2 ^ 64)

abbrev pub nth_seq : Bool → ℕ → List Msg
nth_seq extd k = map (λ i. nth_msg extd (9 * k + i)) nine

pub first_seq-nth_seq : (extd : Bool) → first_seq extd ≡ nth_seq extd 0
unfolding first_seq le_bytes
first_seq-nth_seq true = refl
first_seq-nth_seq false = refl

-- The data is counted on.
data_counted :
    (extd : Bool) (id length count : ℕ)
    → count < 2 ^ 64
    → count_data (msg_of extd id length count) ≡ msg_of extd id length ((count + 1) % 2 ^ 64)
data_counted extd id length count small =
    ap (λ (c : ℕ). msg_of extd id length ((c + 1) % 2 ^ 64)) (le_value-le_bytes 8 count small)

-- One element of the array for the next sequence.
msg_counted :
    (extd : Bool) (k i id : ℕ)
    → i < 9
    → id ≡ (9 * suc k + i) % period extd
    → count_data (msg_of extd id ((9 * k + i) % 9) ((9 * k + i) / 9 % 2 ^ 64))
      ≡ nth_msg extd (9 * suc k + i)
msg_counted extd k i id small e =
    data_counted extd id ((9 * k + i) % 9) ((9 * k + i) / 9 % 2 ^ 64) (omega arith)
    ∙ ap (λ (c : ℕ). msg_of extd id ((9 * k + i) % 9) c) counted
    ∙ ap₂ (λ (a b : ℕ). msg_of extd a b ((9 * suc k + i) / 9 % 2 ^ 64)) e same_length
  where
    counted : ((9 * k + i) / 9 % 2 ^ 64 + 1) % 2 ^ 64 ≡ (9 * suc k + i) / 9 % 2 ^ 64
    counted = omega (arith, small)

    same_length : (9 * k + i) % 9 ≡ (9 * suc k + i) % 9
    same_length = omega arith

next_id_advanced :
    (extd : Bool) (k i : ℕ)
    → i < 9
    → ids_wrap extd (9 * k % period extd) ≡ false
    → add32 ((9 * k + i) % period extd) 9 ≡ (9 * suc k + i) % period extd
next_id_advanced true k i small e = ground arith
next_id_advanced false k i small e = ground arith

next_id_reset :
    (extd : Bool) (k i : ℕ)
    → i < 9
    → ids_wrap extd (9 * k % period extd) ≡ true
    → i ≡ (9 * suc k + i) % period extd
next_id_reset true k i small e = ground arith
next_id_reset false k i small e = ground arith

advanced :
    (extd : Bool) (k i : ℕ)
    → i < 9
    → ids_wrap extd (9 * k % period extd) ≡ false
    → count_data (advance_id (nth_msg extd (9 * k + i))) ≡ nth_msg extd (9 * suc k + i)
advanced extd k i small e = msg_counted extd k i _ small (next_id_advanced extd k i small e)

numbered :
    (extd : Bool) (k i : ℕ)
    → i < 9
    → ids_wrap extd (9 * k % period extd) ≡ true
    → count_data (record (nth_msg extd (9 * k + i)) { id = i }) ≡ nth_msg extd (9 * suc k + i)
numbered extd k i small e = msg_counted extd k i i small (next_id_reset extd k i small e)

-- Lists of nine messages that agree one by one.
nine_cong : (f g : ℕ → Msg) → ((i : ℕ) → i < 9 → f i ≡ g i) → map f nine ≡ map g nine
nine_cong f g h = λ j.
    h 0 (omega arith) j
    ∷ h 1 (omega arith) j
    ∷ h 2 (omega arith) j
    ∷ h 3 (omega arith) j
    ∷ h 4 (omega arith) j
    ∷ h 5 (omega arith) j
    ∷ h 6 (omega arith) j
    ∷ h 7 (omega arith) j
    ∷ h 8 (omega arith) j
    ∷ []

-- update_seq makes the next sequence of each.
pub update_seq-nth_seq :
    (extd : Bool) (k : ℕ) → update_seq extd (nth_seq extd k) ≡ nth_seq extd (suc k)
unfolding update_seq reset_ids
update_seq-nth_seq extd k = elim (Bool-cases (ids_wrap extd (9 * k % period extd))) [
  | inl wraps ↦ rw (first ∙ wraps) (
      nine_cong (λ i. count_data (record (nth_msg extd (9 * k + i)) { id = i }))
        (λ i. nth_msg extd (9 * suc k + i)) (λ i small. numbered extd k i small wraps))
  | inr goes_on ↦ rw (first ∙ goes_on) (
      nine_cong (λ i. count_data (advance_id (nth_msg extd (9 * k + i))))
        (λ i. nth_msg extd (9 * suc k + i)) (λ i small. advanced extd k i small goes_on))
]
  where
    first : ids_wrap extd ((9 * k + 0) % period extd) ≡ ids_wrap extd (9 * k % period extd)
    first = ap (λ (n : ℕ). ids_wrap extd (n % period extd)) (omega arith)

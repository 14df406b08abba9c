-- ===== src/Tools/Arrives.antt =====
-- A message that arrives as it was sent is taken for what it is.
use c4l.Common.{
  ℕ, zero, suc, ◌/◌, ◌%◌, ◌^◌, ◌<◌, ◌≡◌, inl, inr, refl, ◌∙◌, ap, sym, arith, List, [], ◌∷◌, Bool,
  get_or, take, from_short, subst,
}
use c4l.Message.{Msg}
use c4l.Tools.Bytes.{le_value, le_bytes, le_value-le_bytes, le_value-two, le_value-four}
use c4l.Tools.Stream.{nth_msg}
use c4l.Tools.Accepts.{IsChecked, Matches, value_one}

-- The message `m'` is `m` as far as a receiver sees it: its data are the bytes that its length counts.
pub record Arrives (m m' : Msg) : Type 0 where
  pub id_same : m'.id ≡ m.id
  pub length_same : m'.length ≡ m.length
  pub bytes_same : (j : ℕ) → j < m.length → get_or m'.bytes j 0 ≡ get_or m.bytes j 0

le_value_nil : (k : ℕ) → le_value (take k []) ≡ 0
unfolding le_value
le_value_nil zero = refl
le_value_nil (suc k) = refl

-- The value of some bytes depends on just these bytes, where those past the end are 0.
le_value_cong :
    (k : ℕ) (a b : List ℕ)
    → ((j : ℕ) → j < k → get_or a j 0 ≡ get_or b j 0)
    → le_value (take k a) ≡ le_value (take k b)
unfolding le_value
le_value_cong zero a b h = refl
le_value_cong (suc k) [] [] h = refl
le_value_cong (suc k) [] (y ∷ b) h =
    let rest = le_value_cong k [] b (λ j lt. h (suc j) (omega arith)) in
    omega (arith, h 0 (omega arith), rest, le_value_nil k)
le_value_cong (suc k) (x ∷ a) [] h =
    let rest = le_value_cong k a [] (λ j lt. h (suc j) (omega arith)) in
    omega (arith, h 0 (omega arith), rest, le_value_nil k)
le_value_cong (suc k) (x ∷ a) (y ∷ b) h =
    let rest = le_value_cong k a b (λ j lt. h (suc j) (omega arith)) in
    omega (arith, h 0 (omega arith), rest)

pub first_byte : (seq : ℕ) → get_or (le_bytes 8 seq) 0 0 ≡ seq % 2 ^ 8
unfolding le_bytes
first_byte seq = refl

all_bytes : (seq : ℕ) → seq < 2 ^ 64 → le_value (take 8 (le_bytes 8 seq)) ≡ seq
unfolding le_value le_bytes
all_bytes seq small = le_value-le_bytes 8 seq small

-- The bytes of a number at the lengths that are looked at.
checked_bytes :
    (seq len : ℕ)
    → seq < 2 ^ 64
    → IsChecked len
    → le_value (take len (le_bytes 8 seq)) ≡ seq % 256 ^ len
checked_bytes seq len small checked = at_length checked
  where
    Shows : ℕ → Type 0
    Shows len = le_value (take len (le_bytes 8 seq)) ≡ seq % 256 ^ len

    at_length : IsChecked len → Shows len
    at_length (inl e) = subst Shows (sym e) (value_one (le_bytes 8 seq) ∙ first_byte seq)
    at_length (inr (inl e)) = subst Shows (sym e) (le_value-two seq)
    at_length (inr (inr (inl e))) = subst Shows (sym e) (le_value-four seq)
    at_length (inr (inr (inr e))) = subst Shows (sym e) (all_bytes seq small ∙ omega (arith, small))

pub Arrives-Matches :
    (extd : Bool) (n : ℕ) (m : Msg) → Arrives (nth_msg extd n) m → Matches extd n m
Arrives-Matches extd n m a = record {
  id_is = a.id_same;
  length_is = ap from_short a.length_same ∙ ground arith;
  shows = λ checked.
      le_value_cong (n % 9) m.bytes (le_bytes 8 (n / 9 % 2 ^ 64)) a.bytes_same
      ∙ checked_bytes (n / 9 % 2 ^ 64) (n % 9) (omega arith) checked;
}

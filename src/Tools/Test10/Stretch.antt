-- ===== src/Tools/Test10/Stretch.antt =====
-- Stretches of the stream of messages of test 10.
use c4l.Common.{
  ℕ, zero, suc, ◌+◌, ◌*◌, ◌-◌, ◌≤◌, ◌≡◌, refl, ◌∙◌, sym, ap, ap₂, arith, List, [], ◌∷◌, ◌++◌, Bool,
  take, drop, length,
}
use c4l.Message.{Msg}
use c4l.Tools.Stream.{nth_msg, nth_seq}

-- `len` messages from number `n` on.
abbrev pub stretch : Bool → ℕ → ℕ → List Msg
stretch extd n zero = []
stretch extd n (suc len) = nth_msg extd n ∷ stretch extd (suc n) len

pub length-stretch : (extd : Bool) (n len : ℕ) → length (stretch extd n len) ≡ len
length-stretch extd n zero = refl
length-stretch extd n (suc len) = ap suc (length-stretch extd (suc n) len)

pub nth_seq-stretch : (extd : Bool) (k : ℕ) → nth_seq extd k ≡ stretch extd (9 * k) 9
nth_seq-stretch extd k = λ j.
    at 0 (9 * k) (omega arith) j
    ∷ at 1 (suc (9 * k)) (omega arith) j
    ∷ at 2 (suc (suc (9 * k))) (omega arith) j
    ∷ at 3 (suc (suc (suc (9 * k)))) (omega arith) j
    ∷ at 4 (suc (suc (suc (suc (9 * k))))) (omega arith) j
    ∷ at 5 (suc (suc (suc (suc (suc (9 * k)))))) (omega arith) j
    ∷ at 6 (suc (suc (suc (suc (suc (suc (9 * k))))))) (omega arith) j
    ∷ at 7 (suc (suc (suc (suc (suc (suc (suc (9 * k)))))))) (omega arith) j
    ∷ at 8 (suc (suc (suc (suc (suc (suc (suc (suc (9 * k))))))))) (omega arith) j
    ∷ []
  where
    at : (i n : ℕ) → 9 * k + i ≡ n → nth_msg extd (9 * k + i) ≡ nth_msg extd n
    at i n e = ap (nth_msg extd) e

pub drop-stretch :
    (extd : Bool) (n d len : ℕ)
    → d ≤ len
    → drop d (stretch extd n len) ≡ stretch extd (n + d) (len - d)
drop-stretch extd n zero len h = ap₂ (stretch extd) (omega arith) (omega arith)
drop-stretch extd n (suc d) zero h = absurd (omega (arith, h))
drop-stretch extd n (suc d) (suc len) h =
    drop-stretch extd (suc n) d len (omega (arith, h))
    ∙ ap₂ (stretch extd) (omega arith) (omega arith)

pub take-stretch :
    (extd : Bool) (n d len : ℕ) → d ≤ len → take d (stretch extd n len) ≡ stretch extd n d
take-stretch extd n zero len h = refl
take-stretch extd n (suc d) zero h = absurd (omega (arith, h))
take-stretch extd n (suc d) (suc len) h =
    ap (◌∷◌ (nth_msg extd n)) (take-stretch extd (suc n) d len (omega (arith, h)))

pub stretch_append :
    (extd : Bool) (n a b : ℕ) → stretch extd n a ++ stretch extd (n + a) b ≡ stretch extd n (a + b)
stretch_append extd n zero b = ap₂ (stretch extd) (omega arith) (omega arith)
stretch_append extd n (suc a) b =
    let moved : n + suc a ≡ suc n + a = omega arith in
    let one_more : suc (a + b) ≡ suc a + b = omega arith in
    ap (λ (k : ℕ). stretch extd n (suc a) ++ stretch extd k b) moved
    ∙ ap (◌∷◌ (nth_msg extd n)) (stretch_append extd (suc n) a b)
    ∙ ap (stretch extd n) one_more

heads : {x y : Msg} {xs ys : List Msg} → x ∷ xs ≡ y ∷ ys → x ≡ y
heads e = cc

tails : {x y : Msg} {xs ys : List Msg} → x ∷ xs ≡ y ∷ ys → xs ≡ ys
tails e = cc

-- The start of a stretch.
pub prefix-stretch :
    (extd : Bool) (n len : ℕ) (a b : List Msg)
    → stretch extd n len ≡ a ++ b
    → a ≡ stretch extd n (length a)
prefix-stretch extd n len [] b e = refl
prefix-stretch extd n zero (m ∷ a) b e = absurd (omega (arith, ap length e))
prefix-stretch extd n (suc len) (m ∷ a) b e =
    let first : m ≡ nth_msg extd n = sym (heads e) in
    let rest = prefix-stretch extd (suc n) len a b (tails e) in λ i. first i ∷ rest i

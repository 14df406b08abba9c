-- ===== src/Common/Bits.antt =====
-- `&` of masks as arithmetic, by the recursion on digits that stands behind the native operation.
use Prim.Native.Nat.{
  ℕ, zero, suc, ◌+◌, ◌-◌, ◌*◌, ◌/◌, ◌%◌, ◌^◌, ◌≤◌, ◌<◌, ◌∣◌, min, bit_and, digits, bit_and-bitwise,
}
use mathlib.Core.Path.{◌≡◌, refl, ap, subst, ◌∙◌}
use mathlib.Core.Bool.{Bool, true, false}
use native.Mathlib.Nat.{
  pow-suc, one-le-pow, zero-add, dvd_refl, dvd_trans, dvd-mul_right, mod-mod_of_dvd,
}
use native.Mathlib.Omega.{arith}
use c4l.Common.Tests.{◌==◌, if◌then◌else◌}

-- The digits of the conjunction, for `bitwise` with fuel.
abbrev masked : ℕ → ℕ → ℕ → ℕ
masked = digits (λ _. 0) min

-- One more unit of fuel than the number needs changes nothing, nor do `extra` more.
spare_fuel : (fuel x y : ℕ) → x ≤ fuel → masked (suc fuel) x y ≡ masked fuel x y
spare_fuel zero zero y enough = refl
spare_fuel (suc fuel) zero y enough = refl
spare_fuel zero (suc x) y enough = absurd (omega arith)
spare_fuel (suc fuel) (suc x) y enough = rw (spare_fuel fuel (suc x / 2) (y / 2) (omega arith))

one_more : (extra x : ℕ) → suc extra + x ≡ suc (extra + x)
one_more extra x = omega arith

much_fuel : (extra x y : ℕ) → masked (extra + x) x y ≡ masked x x y
much_fuel zero x y = ap (λ n. masked n x y) (omega arith)
much_fuel (suc extra) x y =
    ap (λ (n : ℕ). masked n x y) (one_more extra x)
    ∙ spare_fuel (extra + x) x y (omega arith)
    ∙ much_fuel extra x y

half_fuel : (x y : ℕ) → masked x (suc x / 2) y ≡ masked (suc x / 2) (suc x / 2) y
half_fuel x y =
    ap (λ n. masked n (suc x / 2) y) (omega arith) ∙ much_fuel (x - suc x / 2) (suc x / 2) y

pub bit_and_step : (x y : ℕ) → bit_and x y ≡ bit_and (x / 2) (y / 2) * 2 + min (x % 2) (y % 2)
bit_and_step zero y = simp bit_and-bitwise (omega arith)
bit_and_step (suc x) y = simp bit_and-bitwise (omega (arith, half_fuel x (y / 2)))

masked_zero : (fuel x : ℕ) → masked fuel x 0 ≡ 0
masked_zero zero x = refl
masked_zero (suc fuel) zero = refl
masked_zero (suc fuel) (suc x) = omega (arith, masked_zero fuel (suc x / 2))

pub bit_and_zero : (x : ℕ) → bit_and x 0 ≡ 0
bit_and_zero x = simp bit_and-bitwise (masked_zero x x)

twice_high : (high bits : ℕ) → 2 * (high * 2 ^ bits) ≡ high * 2 ^ suc bits
twice_high high bits = omega (arith, ap (λ (w : ℕ). high * w) (pow-suc 2 bits))

-- Of a number in two parts, the mask leaves the low one.
low_part :
    (bits low high : ℕ)
    → low < 2 ^ bits
    → let word = low + high * 2 ^ bits in bit_and word (2 ^ bits - 1) ≡ low
low_part zero low high small = rw bit_and_zero (omega arith)
low_part (suc bits) low high small =
    let word = low + high * 2 ^ suc bits in
    ground (
      arith,
      low_part bits (low / 2) high (omega arith),
      twice_high high bits,
      pow-suc 2 bits,
      bit_and_step word (2 ^ suc bits - 1),
    )

-- A mask of the low bits is a remainder.
pub bit_and_mask : (bits word : ℕ) → bit_and word (2 ^ bits - 1) ≡ word % 2 ^ bits
bit_and_mask bits word =
    ground (arith, low_part bits (word % 2 ^ bits) (word / 2 ^ bits), one-le-pow bits 2)

-- A test that holds at each number below a bound, found by running it.
unfoldable pub all_below : ℕ → (ℕ → Bool) → Bool
all_below zero test = true
all_below (suc bound) test =
    let others = all_below bound test in if test bound then others else false

pub all_below_sound :
    (bound : ℕ) (test : ℕ → Bool) (x : ℕ) → all_below bound test ≡ true → x < bound → test x ≡ true
unfolding all_below
all_below_sound zero test x all lt = absurd (omega arith)
all_below_sound (suc bound) test x all lt = ground (arith, all_below_sound bound test x)

-- `x & m` is not zero.
abbrev pub has : ℕ → ℕ → Bool
has x m = if bit_and x m == 0 then false else true

pow-dvd-pow : (k j : ℕ) → 2 ^ k ∣ 2 ^ (j + k)
pow-dvd-pow k zero = rw zero-add (dvd_refl (2 ^ k))
pow-dvd-pow k (suc j) =
    rw (shape, pow-suc) (dvd_trans (2 ^ k) (pow-dvd-pow k j) (dvd-mul_right (2 ^ (j + k)) 2))
  where
    shape : suc j + k ≡ suc (j + k)
    shape = omega arith

-- A counter that wraps at 2 ^ 32 keeps its remainder by a smaller power of two.
pub mod-mod_pow : (k x : ℕ) → k ≤ 32 → x % 2 ^ 32 % 2 ^ k ≡ x % 2 ^ k
mod-mod_pow k x h =
    mod-mod_of_dvd (2 ^ k) x (subst (λ t. 2 ^ k ∣ 2 ^ t) shape (pow-dvd-pow k (32 - k)))
  where
    shape : 32 - k + k ≡ 32
    shape = omega arith

-- ===== src/Tools/Bytes.antt =====
-- Numbers in the bytes of a message, the lowest byte first.
use native.Mathlib.Nat.{pow-suc}
use c4l.Common.{
  ℕ, zero, suc, ◌+◌, ◌*◌, ◌/◌, ◌%◌, ◌^◌, ◌<◌, ◌≡◌, refl, ap, arith, List, [], ◌∷◌, take, length,
}

unfoldable pub le_value : List ℕ → ℕ
le_value [] = 0
le_value (b ∷ bytes) = b + 256 * le_value bytes

unfoldable pub le_bytes : ℕ → ℕ → List ℕ
le_bytes zero v = []
le_bytes (suc k) v = v % 256 ∷ le_bytes k (v / 256)

pub length-le_bytes : (k v : ℕ) → length (le_bytes k v) ≡ k
unfolding le_bytes
length-le_bytes zero v = refl
length-le_bytes (suc k) v = ap suc (length-le_bytes k (v / 256))

-- The bytes of a number are those of the number, if it fits.
pub le_value-le_bytes : (k v : ℕ) → v < 256 ^ k → le_value (le_bytes k v) ≡ v
unfolding le_value le_bytes
le_value-le_bytes zero v h = omega (arith, h)
le_value-le_bytes (suc k) v h =
    omega (arith, le_value-le_bytes k (v / 256) (omega (arith, h, pow-suc 256 k)))

-- The first two and four bytes are a remainder.
pub le_value-two : (v : ℕ) → le_value (take 2 (le_bytes 8 v)) ≡ v % 2 ^ 16
unfolding le_value le_bytes
le_value-two v = omega arith

pub le_value-four : (v : ℕ) → le_value (take 4 (le_bytes 8 v)) ≡ v % 2 ^ 32
unfolding le_value le_bytes
le_value-four v = omega arith

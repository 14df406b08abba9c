-- ===== src/Common/Words.antt =====
-- The C integers. An `int` and an `unsigned int` are bit patterns below 2 ^ 32.
use Prim.Native.Nat.{ℕ, ◌+◌, ◌-◌, ◌/◌, ◌%◌, ◌^◌}
use mathlib.Core.Bool.{Bool, not}
use mathlib.Core.Option.{Option, none, some}
use c4l.Common.Tests.{ltb, ◌==◌, if◌then◌else◌}

abbrev pub u8 : ℕ → ℕ
u8 n = n % 256

abbrev pub u32 : ℕ → ℕ
u32 n = n % 2 ^ 32

abbrev pub add32 : ℕ → ℕ → ℕ
add32 a b = (a + b) % 2 ^ 32

-- `-` on ℕ stops at 0, so the modulus is added first.
abbrev pub sub32 : ℕ → ℕ → ℕ
sub32 a b = (a + 2 ^ 32 - b) % 2 ^ 32

-- The sign of the `int` that a pattern stands for.
abbrev pub is_neg32 : ℕ → Bool
is_neg32 a = not (ltb a (2 ^ 31))

-- `a < b` for two `int` patterns: shifting both by 2 ^ 31 makes the order that of the patterns.
abbrev pub slt32 : ℕ → ℕ → Bool
slt32 a b = ltb (add32 a (2 ^ 31)) (add32 b (2 ^ 31))

abbrev pub neg32 : ℕ → ℕ
neg32 a = sub32 0 a

-- `a / b` for two `int` patterns, rounding towards zero; `none` is the fault of a zero divisor.
abbrev pub div32 : ℕ → ℕ → Option ℕ
div32 a b =
    if b == 0
    then none
    else if is_neg32 a
    then if is_neg32 b then some (neg32 a / neg32 b) else some (neg32 (neg32 a / b))
    else if is_neg32 b
    then some (neg32 (a / neg32 b))
    else some (a / b)

-- A signed 16-bit pattern converted to `int`.
abbrev pub from_short : ℕ → ℕ
from_short a = if ltb a (2 ^ 15) then a else add32 a (2 ^ 32 - 2 ^ 16)

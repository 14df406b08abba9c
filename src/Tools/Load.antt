-- ===== src/Tools/Load.antt =====
-- can_send.c: test20, which sends as many messages in each cycle of 20 ms as a bus load asks for.
use c4l.Common.{
  ℕ, ◌+◌, ◌*◌, ◌/◌, ◌%◌, ◌^◌, ◌<◌, ◌≤◌, ◌≡◌, refl, arith, Option, some, true, not, ◌&&◌, ◌==◌,
  if◌then◌else◌, add32, div32, u32, ltb, slt32, ◌>>=?◌, ◌||◌, leb, all_below, all_below_sound,
}
use native.Mathlib.Nat.{mod-eq_of_lt, mul-le-mul, mul-le-mul_right}
use native.Mathlib.Decide.{dec_lt}
use c4l.Machine.{Result}
use c4l.Tools.Drive.{Next, goes_on, ends}

-- The number of messages of 120 bits for one cycle; `none` is a division by zero.
unfoldable pub messages_per_cycle : ℕ → ℕ → Option ℕ
messages_per_cycle baud load = div32 1000 baud >>=? λ bit_time.
    div32 20000 (u32 (120 * bit_time)) >>=? λ n. div32 (u32 (n * load)) 100

-- The messages of the cycle, and all so far.
pub record Cycle : Type 0 where
  pub i : ℕ
  pub test_count : ℕ

-- After a write, taken or not, if there are any messages in a cycle. The next one is in the same cycle, or after the sleep
-- in the next one.
abbrev pub after_message : ℕ → ℕ → Cycle → Result → Next Cycle
after_message n test_count_soll s r =
    if not (test_count_soll == 0) && (add32 s.test_count 1 == test_count_soll)
    then ends (record s { test_count = add32 s.test_count 1 })
    else goes_on (record {
      i = if slt32 (s.i + 1) n then s.i + 1 else 0;
      test_count = if test_count_soll == 0 then s.test_count else add32 s.test_count 1;
    })

rate_table :
    all_below 1001 (λ baud.
      not (1000 % baud == 0)
      || baud == 0
      || (ltb 0 (1000 / baud)
          && ltb (1000 / baud) 1001
          && leb (20000 / (120 * (1000 / baud)) * 120) (20 * baud)))
    ≡ true
unfolding all_below
rate_table = refl

divisor_small : (baud : ℕ) → 1000 % baud ≡ 0 → baud < 1001
divisor_small baud divides = elim (dec_lt 1000 baud) [
  | yes more ↦ absurd (omega (arith, mod-eq_of_lt more, divides))
  | no less ↦ omega (arith, less)
]

-- A full load of a bit rate that divides 1000, where `bit_time` is the time of a bit.
full_load :
    (baud : ℕ)
    → 0 < baud
    → 1000 % baud ≡ 0
    → (0 < 1000 / baud) × (1000 / baud < 1001) × (20000 / (120 * (1000 / baud)) * 120 ≤ 20 * baud)
full_load baud some_rate divides =
    let row = all_below_sound 1001 _ baud rate_table (divisor_small baud divides) in
    (ground (arith, row), ground (arith, row), ground (arith, row))

div32_small : (a b : ℕ) → 0 < b → a < 2 ^ 31 → b < 2 ^ 31 → div32 a b ≡ some (a / b)
div32_small a b some_b small_a small_b = ground arith

-- For a bit rate that divides 1000 the messages of a cycle are at most the load in per cent of the bits that the bus takes in
-- 20 ms. (For others 1000 / baud is rounded down, and they can be more.)
pub messages_per_cycle_bound :
    (baud load : ℕ)
    → 0 < baud
    → 1000 % baud ≡ 0
    → load ≤ 100
    → (n : ℕ) × (messages_per_cycle baud load ≡ some n) × (n * 120 * 100 ≤ 20 * baud * load)
unfolding messages_per_cycle
messages_per_cycle_bound baud load some_rate divides small =
    let (some_time, short, full) = full_load baud some_rate divides in
    let t = 1000 / baud in
    let n = 20000 / (120 * t) in
    let small_baud = divisor_small baud divides in
    let time : div32 1000 baud ≡ some t =
      div32_small 1000 baud some_rate (omega arith) (omega arith) in
    let whole : u32 (120 * t) ≡ 120 * t = omega arith in
    let all : div32 20000 (120 * t) ≡ some n =
      div32_small 20000 (120 * t) (omega arith) (omega arith) (omega arith) in
    let few : n ≤ 166 = omega arith in
    let product : n * load ≤ 166 * 100 = mul-le-mul few small in
    let fits : u32 (n * load) ≡ n * load = omega arith in
    let part : div32 (n * load) 100 ≡ some (n * load / 100) =
      div32_small (n * load) 100 (omega arith) (omega arith) (omega arith) in
    let bound : n * 120 * load ≤ 20 * baud * load = mul-le-mul_right load full in
    (n * load / 100, rw (time, whole, all, fits, part) refl, omega (arith, bound, fits))

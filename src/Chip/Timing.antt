-- ===== src/Chip/Timing.antt =====
-- CAN_SetTiming: the bit rate that the controller gets.
use c4l.Common.{
  ℕ, ◌+◌, ◌*◌, ◌/◌, ◌%◌, ◌≡◌, ◌⊎◌, inl, inr, refl, arith, Option, none, some, bit_and_mask,
  Option-cases,
}
use c4l.Machine.{St}
use c4l.Register
use c4l.Common.{u8, get_or, ◌≢◌, bit_and}
use c4l.Chip.{timing_index, can_timing, write_timing, set_timing}
use c4l.Chip.Shadow.{written}

-- The bit rate in kbit/s of the bus timing registers `t0` and `t1` at 8 MHz, as the controller's
-- manual has it: a time quantum is `t0 % 64 + 1` clocks, and a bit is one quantum, the
-- first segment of `t1 % 16 + 1` and the second of `t1 / 16 % 8 + 1`.
abbrev pub bit_rate : ℕ → ℕ → ℕ
bit_rate t0 t1 = 8000 / ((t0 % 64 + 1) * (1 + (t1 % 16 + 1) + (t1 / 16 % 8 + 1)))

-- Which bytes the bus timing registers are to get for a rate: those of just that rate if the
-- driver's table has it, else the two low bytes of the rate, taken for a custom bit timing.
abbrev pub TimingOf : ℕ → ℕ → ℕ → Type 0
TimingOf baud t0 t1 =
    ((i : ℕ) × (timing_index baud ≡ some i) × (bit_rate t0 t1 ≡ baud))
    ⊎ ((timing_index baud ≡ none) × (t0 * 256 + t1 ≡ baud % 65536))

-- A run from `st` that returns 0, sets the bus timing registers as `baud` asks, writes to no other
-- register but the clock divider, and leaves the rest of the driver's state alone.
abbrev pub Programs : ℕ → St → Option (ℕ × St) → Type 0
Programs baud st result =
    (st' : St) × (t0 : ℕ) × (t1 : ℕ) × (result ≡ some (0, st'))
    × (written st'.log (st.vars.base + Register.cantim0) ≡ some t0)
    × (written st'.log (st.vars.base + Register.cantim1) ≡ some t1)
    × TimingOf baud t0 t1
    × (written st'.log (st.vars.base + Register.canclk) ≡ some 0xc7)
    × ((r : ℕ)
        → r ≢ Register.cantim0
        → r ≢ Register.cantim1
        → r ≢ Register.canclk
        → written st'.log (st.vars.base + r) ≡ written st.log (st.vars.base + r))
    × (st'.vars ≡ st.vars)
    × (st'.dev ≡ st.dev)

timing_index-rate :
    (baud i : ℕ)
    → timing_index baud ≡ some i
    → bit_rate (u8 (get_or can_timing i (0, 0)).0) (u8 (get_or can_timing i (0, 0)).1) ≡ baud
unfolding timing_index
timing_index-rate baud i e = ground arith

custom_bytes :
    (baud : ℕ) → u8 (bit_and (baud / 256) 255) * 256 + u8 (bit_and baud 255) ≡ baud % 65536
custom_bytes baud = rw (bit_and_mask 8 (baud / 256), bit_and_mask 8 baud) (omega arith)

-- CAN_SetTiming gives the controller the bus timing of just the rate in kbit/s if the driver's table has it, and else takes
-- the two low bytes for a custom bit timing; it writes to no other register but the clock divider.
pub set_timing_lem : (baud : ℕ) (st : St) → Programs baud st (set_timing baud st)
unfolding set_timing
set_timing_lem baud st = elim (Option-cases (timing_index baud)) [
  | inl custom ↦
      rw (custom, write_timing)
        (
          _,
          _,
          _,
          refl,
          ground arith,
          ground arith,
          inr (refl, custom_bytes baud),
          ground arith,
          λ r a b c. ground arith,
          refl,
          refl,
        )
  | inr (i, e) ↦
      rw (e, write_timing)
        (
          _,
          _,
          _,
          refl,
          ground arith,
          ground arith,
          inl (i, refl, timing_index-rate baud i e),
          ground arith,
          λ r a b c. ground arith,
          refl,
          refl,
        )
]

-- ===== src/Chip/Start.antt =====
-- CAN_StartChip and CAN_StopChip: the interrupts and the reset mode.
use c4l.Common.{
  ℕ, ◌+◌, ◌-◌, ◌%◌, ◌<◌, ◌≡◌, ◌≢◌, refl, arith, some, true, ◌∷◌, ◌==◌, ==_iff, bit_and, bit_or,
  all_below, all_below_sound, u8,
}
use c4l.Machine.{St, input, output}
use c4l.Register
use c4l.Chip.{start_chip, stop_chip}
use c4l.Chip.Shadow.{written}

-- What the mode register answers CANreset in CAN_StartChip.
abbrev pub start_mode : St → ℕ
start_mode st =
    let irq = st.vars.base + Register.canirq in
    let log1 = input irq (u8 (st.env st.log irq)) ∷ st.log in
    let log2 = output (st.vars.base + Register.canirq_enable) 15 ∷ log1 in
    u8 (st.env log2 (st.vars.base + Register.canmode))

clear_table : all_below 256 (λ x. bit_and x 0xffff_fffe == x - x % 2) ≡ true
unfolding all_below
clear_table = refl

set_table : all_below 256 (λ x. bit_or x 1 == x - x % 2 + 1) ≡ true
unfolding all_below
set_table = refl

clear_low : (x : ℕ) → x < 256 → bit_and x 0xffff_fffe ≡ x - x % 2
clear_low x h = (==_iff _ _).0 (all_below_sound 256 _ x clear_table h)

set_low : (x : ℕ) → x < 256 → bit_or x 1 ≡ x - x % 2 + 1
set_low x h = (==_iff _ _).0 (all_below_sound 256 _ x set_table h)

-- CAN_StartChip clears the error counters, enables the receive, transmit, error and overrun
-- interrupts, and then takes the reset request out of the mode register, whose other bits stay. It writes to no other register.
pub start_chip_lem :
    (st : St)
    → (st' : St) × (start_chip st ≡ some (0, st'))
      × (written st'.log (st.vars.base + Register.canirq_enable) ≡ some 15)
      × (written st'.log (st.vars.base + Register.canmode)
          ≡ some (start_mode st - start_mode st % 2))
      × (st'.vars ≡ record st.vars { rx_err = 0; tx_err = 0 })
      × (st'.dev ≡ st.dev)
      × ((r : ℕ)
          → r ≢ Register.canirq_enable
          → r ≢ Register.canmode
          → written st'.log (st.vars.base + r) ≡ written st.log (st.vars.base + r))
unfolding start_chip
start_chip_lem st = (
  _,
  refl,
  ground arith,
  ground (arith, clear_low (start_mode st)),
  refl,
  refl,
  λ r a b. ground arith,
)

-- CAN_StopChip puts the reset request into the mode register, whose other bits stay. It writes to no other register.
pub stop_chip_lem :
    (st : St)
    → let mode = u8 (st.env st.log (st.vars.base + Register.canmode)) in
      (st' : St) × (stop_chip st ≡ some (0, st'))
      × (written st'.log (st.vars.base + Register.canmode) ≡ some (mode - mode % 2 + 1))
      × (st'.vars ≡ st.vars)
      × (st'.dev ≡ st.dev)
      × ((r : ℕ)
          → r ≢ Register.canmode
          → written st'.log (st.vars.base + r) ≡ written st.log (st.vars.base + r))
unfolding stop_chip
stop_chip_lem st = (
  _,
  refl,
  ground (arith, set_low (u8 (st.env st.log (st.vars.base + 0)))),
  refl,
  refl,
  λ r a. ground arith,
)

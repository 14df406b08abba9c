-- ===== src/Chip.antt =====
-- io.h and the controller's functions of sja1000funcs.c, for port I/O and the 8 MHz bit timings of
-- sja1000.h (the target ATCANMINI_PELICAN of the Makefile, without debugging).
-- `udelay` and the log messages are not modelled, but for the registers that a message reads.
pub mod Shadow
pub mod Timing
pub mod Reads
pub mod Requests
pub mod Quiet
pub mod Setup
pub mod Start
use c4l.Common.{
  ℕ, ◌+◌, ◌-◌, ◌*◌, ◌/◌, ◌^◌, Option, none, some, List, [], ◌∷◌, ◌==◌, if◌then◌else◌, get_or,
  bit_and, bit_or,
}
use c4l.Machine.{Vars, St, M, pure, ◌>>=◌, ◌>>◌, state, with_vars, inb, outb}
use c4l.Register

-- The macros of io.h. `~m` is taken over 32 bits.
unfoldable pub can_in : ℕ → M ℕ
unfolding inb
can_in reg st = inb (st.vars.base + reg) st

unfoldable pub can_out : ℕ → ℕ → M (Unit {0})
unfolding outb
can_out reg v st = outb v (st.vars.base + reg) st

unfoldable pub can_set : ℕ → ℕ → M (Unit {0})
unfolding can_in can_out
can_set reg m = do v ← can_in reg; can_out reg (bit_or v m)

unfoldable pub can_reset : ℕ → ℕ → M (Unit {0})
unfolding can_in can_out
can_reset reg m = do v ← can_in reg; can_out reg (bit_and v (2 ^ 32 - 1 - m))

-- The index in `CanTiming` of a bit rate in kbit/s; `none` is a custom bit timing.
unfoldable pub timing_index : ℕ → Option ℕ
timing_index baud =
    if baud == 10
    then some 0
    else if baud == 20
    then some 1
    else if baud == 50
    then some 2
    else if baud == 100
    then some 3
    else if baud == 125
    then some 4
    else if baud == 250
    then some 5
    else if baud == 500
    then some 6
    else if baud == 800
    then some 7
    else if baud == 1000
    then some 8
    else none

-- The bus timing registers 0 and 1 for each rate. The last row of the array is not initialised.
abbrev pub can_timing : List (ℕ × ℕ)
can_timing =
    (49, 0x1c)
    ∷ (24, 0x1c)
    ∷ (9, 0x1c)
    ∷ (4, 0x1c)
    ∷ (3, 0x1c)
    ∷ (1, 0x1c)
    ∷ (0, 0x1c)
    ∷ (0, 0x16)
    ∷ (0, 0x14)
    ∷ (0, 0)
    ∷ []

-- What a message prints of the registers is read from them.
write_timing : ℕ → Option ℕ → M (Unit {0})
unfolding can_in can_out
write_timing baud none = do
  can_out Register.cantim0 (bit_and (baud / 256) 0xff)
  can_out Register.cantim1 (bit_and baud 0xff)
  can_in Register.cantim0
  can_in Register.cantim1
  pure tt
write_timing baud (some i) = do
  can_out Register.cantim0 (get_or can_timing i (0, 0)).0
  can_out Register.cantim1 (get_or can_timing i (0, 0)).1

unfoldable pub set_timing : ℕ → M ℕ
unfolding timing_index write_timing
set_timing baud = do
  can_out Register.canclk (Register.can_mode_pelican + Register.can_mode_clk)
  write_timing baud (timing_index baud)
  pure 0

-- The acceptance code goes to the four registers from `frameinfo` on, the mask to the next four.
unfoldable pub set_mask : ℕ → ℕ → M ℕ
unfolding can_out
set_mask code mask = do
  can_out Register.frameinfo (bit_and (code / 2 ^ 24) 0xff)
  can_out Register.canid1 (bit_and (code / 2 ^ 16) 0xff)
  can_out Register.canid2 (bit_and (code / 2 ^ 8) 0xff)
  can_out Register.canid3 (bit_and code 0xff)
  can_out Register.canid4 (bit_and (mask / 2 ^ 24) 0xff)
  can_out Register.canxdata (bit_and (mask / 2 ^ 16) 0xff)
  can_out (Register.canxdata + 1) (bit_and (mask / 2 ^ 8) 0xff)
  can_out (Register.canxdata + 2) (bit_and mask 0xff)
  pure 0

-- `CAN_OUTC_VAL` of the target.
abbrev pub can_outc_val : ℕ
can_outc_val = 0xfa

init_registers : M ℕ
unfolding can_out
init_registers = do
  can_out Register.canclk (Register.can_mode_pelican + Register.can_mode_clk)
  can_out Register.canmode (Register.can_reset_request + Register.can_mode_def)
  with_vars (λ v. record v { outc = if v.outc == 0 then can_outc_val else v.outc })
  st ← state
  can_out Register.canoutc st.vars.outc
  set_timing st.vars.baud
  set_mask st.vars.acc_code st.vars.acc_mask

-- -1 (the pattern 2 ^ 32 - 1) if the controller does not go into reset mode.
unfoldable pub chip_reset : M ℕ
unfolding init_registers can_in can_out
chip_reset = do
  can_out Register.canmode Register.can_reset_request
  can_in Register.canstat
  mode ← can_in Register.canmode
  if bit_and mode Register.can_reset_request == 0 then pure (2 ^ 32 - 1) else init_registers

unfoldable pub start_chip : M ℕ
unfolding can_reset
start_chip = do
  with_vars (λ v. record v { rx_err = 0; tx_err = 0 })
  can_in Register.canirq
  can_out Register.canirq_enable (
      Register.can_overrun_int_enable + Register.can_error_warn_int_enable
      + Register.can_transmit_int_enable + Register.can_receive_int_enable)
  can_reset Register.canmode Register.can_reset_request
  pure 0

unfoldable pub stop_chip : M ℕ
unfolding can_set
stop_chip = do can_set Register.canmode Register.can_reset_request; pure 0

-- The output control register.
unfoldable pub set_omode : ℕ → M ℕ
unfolding can_out
set_omode arg = do can_out Register.canoutc arg; pure 0

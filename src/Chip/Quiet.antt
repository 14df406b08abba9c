-- ===== src/Chip/Quiet.antt =====
-- The controller's functions make no transmission request, and leave the transmit queue as it is.
use c4l.Common.{
  ℕ, ◌+◌, ◌-◌, ◌*◌, ◌/◌, ◌^◌, ◌≡◌, ◌≢◌, refl, arith, Option, none, some, Bool, true, false, ◌==◌,
  bit_and, bit_or, if◌then◌else◌,
}
use c4l.Machine.{Vars, with_vars}
use c4l.Register
use c4l.Chip.{
  can_outc_val, can_set, can_reset, write_timing, set_timing, set_mask, init_registers, chip_reset,
  start_chip, stop_chip, set_omode,
}
use c4l.Chip.Requests.{
  Quiet, Same, pure-Quiet, state-Quiet, >>=-Quiet, if-Quiet, can_in-Quiet, can_out-Quiet,
  release-Quiet, clear_overrun-Quiet,
}

pub ruleset quiet = (
  >>=-Quiet, pure-Quiet, state-Quiet, if-Quiet, can_in-Quiet, can_out-Quiet, release-Quiet,
  clear_overrun-Quiet, refl,
)

pub can_reset-Quiet : (reg m : ℕ) → (reg == Register.cancmd) ≡ false → Quiet (can_reset reg m)
unfolding can_reset
can_reset-Quiet reg m h =
    >>=-Quiet _ _ (can_in-Quiet reg) (λ v. can_out-Quiet reg (bit_and v (2 ^ 32 - 1 - m)) h)

pub can_set-Quiet : (reg m : ℕ) → (reg == Register.cancmd) ≡ false → Quiet (can_set reg m)
unfolding can_set
can_set-Quiet reg m h = >>=-Quiet _ _ (can_in-Quiet reg) (λ v. can_out-Quiet reg (bit_or v m) h)

-- A change of the variables that keeps the base, and a rate other than 0.
pub with_vars-Quiet :
    (f : Vars → Vars)
    → ((v : Vars) → ((f v).base ≡ v.base) × (v.baud ≢ 0 → (f v).baud ≢ 0))
    → Quiet (with_vars f)
with_vars-Quiet f p = record {
  at = λ st. (
    tt,
    record st { vars = f st.vars },
    refl,
    record {
      env_same = refl;
      base_same = (p st.vars).0;
      rx_same = refl;
      tx_same = refl;
      progress_same = refl;
      work_same = refl;
      timers_same = (refl, refl);
      rated = (p st.vars).1;
      no_request = refl;
      reads_more = λ port. omega arith;
    },
  );
}

write_timing-Quiet : (baud : ℕ) (o : Option ℕ) → Quiet (write_timing baud o)
unfolding write_timing
write_timing-Quiet baud none = search quiet depth 15
write_timing-Quiet baud (some i) = search quiet depth 15

pub set_timing-Quiet : (baud : ℕ) → Quiet (set_timing baud)
unfolding set_timing
set_timing-Quiet baud = search (quiet, write_timing-Quiet) depth 15

pub set_mask-Quiet : (code mask : ℕ) → Quiet (set_mask code mask)
unfolding set_mask
set_mask-Quiet code mask = search quiet depth 25

default_outc :
    Quiet (with_vars (λ v. record v { outc = if v.outc == 0 then can_outc_val else v.outc }))
default_outc = with_vars-Quiet _ (λ v. (refl, λ h. h))

no_errors : Quiet (with_vars (λ v. record v { rx_err = 0; tx_err = 0 }))
no_errors = with_vars-Quiet _ (λ v. (refl, λ h. h))

init_registers-Quiet : Quiet init_registers
unfolding init_registers
init_registers-Quiet = search (quiet, default_outc, set_timing-Quiet, set_mask-Quiet) depth 18

pub chip_reset-Quiet : Quiet chip_reset
unfolding chip_reset
chip_reset-Quiet = search (quiet, init_registers-Quiet) depth 15

pub start_chip-Quiet : Quiet start_chip
unfolding start_chip
start_chip-Quiet = search (quiet, no_errors, can_reset-Quiet) depth 15

pub stop_chip-Quiet : Quiet stop_chip
unfolding stop_chip
stop_chip-Quiet = search (quiet, can_set-Quiet) depth 15

pub set_omode-Quiet : (arg : ℕ) → Quiet (set_omode arg)
unfolding set_omode
set_omode-Quiet arg = search quiet depth 15

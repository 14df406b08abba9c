-- ===== src/Isr/Round.antt =====
-- A round of the interrupt handler keeps both queues valid, and runs without a fault.
use c4l.Common.{
  ℕ, ◌≢◌, inl, inr, refl, arith, List, not, ◌==◌, ◌&&◌, bit_or, if◌then◌else◌, Bool-cases, has,
  add32,
}
use c4l.Machine.{Access, St, pure, ◌>>=◌, state, with_dev, with_vars}
use c4l.Register
use c4l.Chip.{can_in}
use c4l.Frame.{Msginf, readcanmsg, errmsg}
use c4l.Isr.{
  rxproduce, on_receive, receive_part, fake_tx, undo_reset, on_warning, warn_part, on_transmit,
  transmit_part, on_overrun, overrun_part, isr_round, delayedmsgworker,
}
use c4l.Isr.Calm.{
  Calm, CalmAt, Stays-refl, calm, can_reset-Calm, readcanmsg-Calm, errmsg-Calm, modify-Calm,
}
use c4l.Isr.Safe.{
  IsOpen, SafeAt, Safe, safe, rxproduce-Safe, consume_tx-Safe, wake_if_low-Safe,
  clear_if_overrun-Calm,
}

read_rx-Safe : (inf : Msginf) → Safe (rxproduce (readcanmsg inf))
read_rx-Safe inf = rxproduce-Safe (readcanmsg inf) (readcanmsg-Calm inf)

err_rx-Safe : (inf : Msginf) → Safe (rxproduce (errmsg inf))
err_rx-Safe inf = rxproduce-Safe (errmsg inf) (errmsg-Calm inf)

receive_part-Safe : (src : ℕ) (inf : Msginf) → Safe (receive_part src inf)
unfolding receive_part on_receive
receive_part-Safe src inf = search (safe, read_rx-Safe, clear_if_overrun-Calm) depth 12

fake_tx-CalmAt : (src : ℕ) (st : St) → st.vars.baud ≢ 0 → CalmAt (fake_tx src) st
unfolding fake_tx
fake_tx-CalmAt src st h =
    elim (Bool-cases (not (st.dev.txinprogress == 0) && not (has src Register.can_transmit_int))) [
      | inl stuck ↦ rw stuck (look.at st h)
      | inr fine ↦ (src, st, rw fine, Stays-refl st, refl, refl)
    ]
  where
    look : Calm (
        can_in Register.canstat >>= λ s. pure (
          if has s Register.can_transmit_buffer_access
          then bit_or src Register.can_transmit_int
          else src))
    look = search calm

pub fake_tx-Calm : (src : ℕ) → Calm (fake_tx src)
fake_tx-Calm src = record { at = fake_tx-CalmAt src }

pub undo_reset-Calm : (mode : ℕ) → Calm (undo_reset mode)
unfolding undo_reset
undo_reset-Calm mode = search (calm, can_reset-Calm)

warn_part-Safe : (src : ℕ) (inf : Msginf) → Safe (warn_part src inf)
unfolding warn_part on_warning
warn_part-Safe src inf = search (safe, err_rx-Safe, undo_reset-Calm, fake_tx-Calm) depth 18

progress_over : Calm (with_dev (λ d. record d { txinprogress = 0 }))
progress_over = modify-Calm _ (λ d. (refl, refl))

pub on_transmit-Safe : Safe on_transmit
unfolding on_transmit
on_transmit-Safe = search (safe, progress_over, consume_tx-Safe, wake_if_low-Safe) depth 12

transmit_part-Safe : (src : ℕ) → Safe (transmit_part src)
unfolding transmit_part
transmit_part-Safe src = search (safe, on_transmit-Safe) depth 12

count_overrun : Calm (with_vars (λ v. record v { overrun = add32 v.overrun 1 }))
count_overrun = record {
  at = λ st h. (
    tt,
    record st { vars = record st.vars { overrun = add32 st.vars.overrun 1 } },
    refl,
    record {
      env_same = refl;
      base_same = refl;
      baud_same = refl;
      reads_more = λ port. omega arith;
    },
    refl,
    refl,
  );
}

overrun_part-Safe : (src : ℕ) (inf : Msginf) → Safe (overrun_part src inf)
unfolding overrun_part on_overrun
overrun_part-Safe src inf = search (safe, count_overrun, err_rx-Safe) depth 16

state-Safe : Safe state
state-Safe = record { at = λ st h. (st, st, refl, Stays-refl st, h) }

pub isr_round-Safe : (clock : List Access → ℕ × ℕ) (src : ℕ) → Safe (isr_round clock src)
unfolding isr_round
isr_round-Safe clock src =
    search
      (safe, state-Safe, receive_part-Safe, warn_part-Safe, transmit_part-Safe, overrun_part-Safe)
      depth 12

-- Whatever the controller answers, a round of the handler for any interrupt sources on an open device ends without a
-- fault, and the device is open still: both queues are valid.
pub isr_round_lem :
    (clock : List Access → ℕ × ℕ) (src : ℕ) (st : St) → IsOpen st → SafeAt (isr_round clock src) st
isr_round_lem clock src st h = (isr_round-Safe clock src).at st h

pub delayedmsgworker-Safe : Safe delayedmsgworker
unfolding delayedmsgworker
delayedmsgworker-Safe = search (safe, consume_tx-Safe, wake_if_low-Safe)

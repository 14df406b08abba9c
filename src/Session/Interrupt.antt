-- ===== src/Session/Interrupt.antt =====
-- The interrupt handler, for any number of rounds, and the work of a timer keep the transmit queue running and in order.
use c4l.Common.{
  ℕ, zero, suc, inl, inr, refl, List, [], ◌∷◌, add32, ap, ◌∙◌, ◌≡◌, length, arith, Option, none,
  some, Bool, true,
}
use c4l.Machine.{Access, Timer, St, with_vars}
use c4l.Message.{Msg}
use c4l.Chip.Requests.{Quiet}
use c4l.Chip.Quiet.{with_vars-Quiet}
use c4l.Frame.{Msginf, readcanmsg, errmsg}
use c4l.Frame.Quiet.{readcanmsg-Quiet, errmsg-Quiet}
use c4l.Isr.{
  rxproduce, on_receive, receive_part, on_warning, warn_part, on_transmit, transmit_part,
  on_overrun, overrun_part, isr_round, isr_loop, can_interrupt, expired, disarm, dlyworker,
}
use c4l.Isr.Round.{on_transmit-Safe, delayedmsgworker-Safe}
use c4l.Isr.Transmit.{on_transmit_lem, delayedmsgworker_lem}
use c4l.Session.Received.{Gathers, Gathers-trans, Later, Later-Gathers, Stays-Later}
use c4l.Session.Running.{Loose, Carries}
use c4l.Session.Turns.{Turn-Loose, Turn-Carries}
use c4l.Isr.Safe.{IsOpen, Safe-end}
use c4l.File.Idle.{IdleIsEmpty}
use c4l.Frame.Timing.{HasTimer}
use c4l.Session.Live.{
  Live, live, rxproduce-Live, undo_reset-Quiet, clear_if_overrun-Quiet, fake_tx-Quiet,
}

-- The flag of a transmission in progress does not matter for the order.
from_idle_bus :
    {ms : List Msg} {a b : St}
    → Carries ms (record a { dev = record a.dev { txinprogress = 0 } }) b
    → Carries ms a b
from_idle_bus c = record {
  logs = c.logs;
  sent = c.sent;
  base_same = c.base_same;
  asked = c.asked;
  loaded = c.loaded;
  in_order = c.in_order;
}

on_transmit-Live : Live on_transmit
on_transmit-Live = record {
  at = λ w v st h.
      let (st', run, turn, woken, rx) = on_transmit_lem st h.opened in
      let (stays, op) = Safe-end on_transmit-Safe h.opened run in
      (
        tt,
        st',
        run,
        Turn-Loose h.empty h.timer turn op,
        from_idle_bus {a = st} (Turn-Carries stays.base_same turn),
        Later-Gathers (Stays-Later stays) rx,
      );
}

length-disarm : (l : List Timer) (i : ℕ) → length (disarm l i) ≡ length l
length-disarm [] i = refl
length-disarm (t ∷ l) zero = refl
length-disarm (t ∷ l) (suc i) = ap (λ (n : ℕ). suc n) (length-disarm l i)

-- With the timer that expires another state begins.
module _ {ms : List Msg} {b : St} where
  from_expired :
      (o : Option ℕ) (a : St)
      → Carries ms (expired o a) b × Gathers ms (expired o a) b
      → Carries ms a b × Gathers ms a b
  from_expired none a p = p
  from_expired (some i) a (c, g) = (
    record {
      logs = c.logs;
      sent = c.sent;
      base_same = c.base_same;
      asked = c.asked;
      loaded = c.loaded;
      in_order = c.in_order;
    },
    Gathers-trans {b = expired (some i) a} (Later-Gathers later refl) g,
  )
    where
      later : Later a (expired (some i) a)
      later = record { env_same = refl; base_same = refl; reads_more = λ port. omega arith }

expired-HasTimer : (o : Option ℕ) (st : St) → HasTimer st → HasTimer (expired o st)
expired-HasTimer none st h = h
expired-HasTimer (some i) st (all, own, free) = (length-disarm st.dly i ∙ all, own, free)

expired-Loose :
    (o : Option ℕ) (w v : Bool) (st : St)
    → Loose w v st
    → IsOpen (expired o st) × (w ≡ true → IdleIsEmpty (expired o st))
expired-Loose none w v st h = (h.opened, h.empty)
expired-Loose (some i) w v st h = (
  record {
    rx_valid = h.opened.rx_valid;
    tx_valid = h.opened.tx_valid;
    baud_set = h.opened.baud_set;
  },
  h.empty,
)

pub dlyworker-Live : Live dlyworker
unfolding dlyworker
dlyworker-Live = record {
  at = λ w v st h.
      let (op1, empty1) = expired-Loose st.dev.delayedwork w v st h in
      let st1 : St = expired st.dev.delayedwork st in
      let (st', run, turn, woken, rx) = delayedmsgworker_lem st1 op1 in
      let (stays, op) = Safe-end delayedmsgworker-Safe op1 run in
      let (c, g) =
        from_expired st.dev.delayedwork st
          (Turn-Carries stays.base_same turn, Later-Gathers (Stays-Later stays) rx) in
      (
        tt,
        st',
        run,
        Turn-Loose {a = st1} empty1 (expired-HasTimer st.dev.delayedwork st h.timer) turn op,
        c,
        g,
      );
}

read_rx-Live : (inf : Msginf) → Live (rxproduce (readcanmsg inf))
read_rx-Live inf =
    rxproduce-Live (readcanmsg inf) (readcanmsg-Quiet inf) (λ slot m s s' run. (inf, slot, inl run))

err_rx-Live : (inf : Msginf) → Live (rxproduce (errmsg inf))
err_rx-Live inf =
    rxproduce-Live (errmsg inf) (errmsg-Quiet inf) (λ slot m s s' run. (inf, slot, inr run))

receive_part-Live : (src : ℕ) (inf : Msginf) → Live (receive_part src inf)
unfolding receive_part on_receive
receive_part-Live src inf = search (live, read_rx-Live, clear_if_overrun-Quiet) depth 12

warn_part-Live : (src : ℕ) (inf : Msginf) → Live (warn_part src inf)
unfolding warn_part on_warning
warn_part-Live src inf = search (live, err_rx-Live, undo_reset-Quiet, fake_tx-Quiet) depth 18

transmit_part-Live : (src : ℕ) → Live (transmit_part src)
unfolding transmit_part
transmit_part-Live src = search (live, on_transmit-Live) depth 12

count_overrun : Quiet (with_vars (λ v. record v { overrun = add32 v.overrun 1 }))
count_overrun = with_vars-Quiet _ (λ v. (refl, λ h. h))

overrun_part-Live : (src : ℕ) (inf : Msginf) → Live (overrun_part src inf)
unfolding overrun_part on_overrun
overrun_part-Live src inf = search (live, count_overrun, err_rx-Live) depth 16

isr_round-Live : (clock : List Access → ℕ × ℕ) (src : ℕ) → Live (isr_round clock src)
unfolding isr_round
isr_round-Live clock src =
    search (live, receive_part-Live, warn_part-Live, transmit_part-Live, overrun_part-Live) depth 12

isr_loop-Live : (clock : List Access → ℕ × ℕ) (fuel src : ℕ) → Live (isr_loop clock fuel src)
unfolding isr_loop
isr_loop-Live clock zero src = search live
isr_loop-Live clock (suc fuel) src =
    search (live, isr_round-Live, isr_loop-Live clock fuel) depth 12

pub can_interrupt-Live : (clock : List Access → ℕ × ℕ) (fuel : ℕ) → Live (can_interrupt clock fuel)
unfolding can_interrupt
can_interrupt-Live clock fuel = search (live, isr_loop-Live clock fuel) depth 12

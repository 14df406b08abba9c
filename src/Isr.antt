-- ===== src/Isr.antt =====
-- sja1000funcs.c: the interrupt handler, the way it puts messages into the receive queue, and the
-- work that a timer of linux_2.6.c does. The log messages and the time of day are not modelled; the latter is
-- the argument `clock`, the seconds and microseconds after the accesses so far.
pub mod Calm
pub mod Safe
pub mod Round
pub mod Receive
pub mod Transmit
pub mod Errors
pub mod Warnings
pub mod Loop
use c4l.Common.{
  ℕ, zero, suc, ◌+◌, Option, none, some, List, [], ◌∷◌, Bool, true, false, not, ◌&&◌, ◌==◌,
  if◌then◌else◌, bit_or, has, add32, slt32, div32, ◌>>=?◌,
}
use c4l.Message.{Msg, msg_ovr, msg_passive, msg_busoff, msg_bovr}
use c4l.Msgq.{MsgQ, qlen, qsize, qproduce, qconsume}
use c4l.Machine.{Access, Timer, Dev, Vars, St, M, pure, ◌>>=◌, ◌>>◌, state, with_dev, with_vars}
use c4l.Register
use c4l.Chip.{can_in, can_out, can_reset}
use c4l.Frame.{Msginf, readcanmsg, errmsg, sendcanmsg}

-- The receive status: `BUF_OK` and `BUF_OVERRUN`.
abbrev pub buf_ok : ℕ
buf_ok = 1

abbrev pub buf_overrun : ℕ
buf_overrun = 2

-- `qproduce(&dev->rxq, …)`, `qproduce(&dev->txq, …)` and the same of `qconsume`, with a callback that does not touch
-- the queue.
unfoldable pub produce_rx : (Msg → M Msg) → M ℕ
unfolding qproduce
produce_rx f st = qproduce st.dev.rxq f st >>=? λ (r, q, st').
    some (r, record st' { dev = record st'.dev { rxq = q } })

unfoldable pub consume_tx : M ℕ
unfolding qconsume sendcanmsg
consume_tx st = qconsume st.dev.txq sendcanmsg st >>=? λ (r, q, st').
    some (r, record st' { dev = record st'.dev { txq = q } })

abbrev pub rx_result : ℕ → Dev → Dev
rx_result r d =
    if r == 0
    then record d { rxstatus = buf_overrun }
    else record d { rxstatus = buf_ok; wq = d.wq + 1 }

unfoldable pub rxproduce : (Msg → M Msg) → M (Unit {0})
unfolding produce_rx
rxproduce f = do r ← produce_rx f; with_dev (rx_result r)

-- `qlen(&dev->txq) <= qsize(&dev->txq)/2`.
unfoldable pub tx_low : MsgQ → Option Bool
unfolding qlen qsize
tx_low q = div32 (qsize q) 2 >>=? λ half. some (not (slt32 half (qlen q)))

abbrev pub delayed : {A : Type 0} → Option A → M A
delayed o st = o >>=? λ a. some (a, st)

unfoldable pub wake_if_low : M (Unit {0})
unfolding tx_low
wake_if_low = do
  st ← state
  low ← delayed (tx_low st.dev.txq)
  with_dev (λ d. if low then record d { wq = d.wq + 1 } else d)

unfoldable pub clear_if_overrun : ℕ → M (Unit {0})
unfolding can_out
clear_if_overrun s =
    if has s Register.can_data_overrun
    then can_out Register.cancmd Register.can_clear_overrun_status
    else pure tt

unfoldable pub on_receive : Msginf → M (Unit {0})
unfolding rxproduce readcanmsg can_in clear_if_overrun
on_receive inf = do rxproduce (readcanmsg inf); s ← can_in Register.canstat; clear_if_overrun s

unfoldable pub receive_part : ℕ → Msginf → M (Unit {0})
unfolding on_receive
receive_part src inf = if has src Register.can_receive_int then on_receive inf else pure tt

-- The assignments `err = + MSG_…` keep only the last.
unfoldable pub warn_flags : ℕ → ℕ
warn_flags s =
    if has s Register.can_bus_status
    then msg_busoff
    else if has s Register.can_error_status
    then msg_passive
    else 0

-- The transmit interrupt is added to `src` if a message is in progress, but the buffer is free.
unfoldable pub fake_tx : ℕ → M ℕ
unfolding can_in
fake_tx src st =
    let look : M ℕ = can_in Register.canstat >>= λ s. pure (
      if has s Register.can_transmit_buffer_access
      then bit_or src Register.can_transmit_int
      else src) in
    if not (st.dev.txinprogress == 0) && not (has src Register.can_transmit_int)
    then look st
    else some (src, st)

unfoldable pub undo_reset : ℕ → M (Unit {0})
unfolding can_reset
undo_reset mode =
    if has mode Register.can_reset_request
    then can_reset Register.canmode Register.can_reset_request
    else pure tt

abbrev pub with_err : Msginf → ℕ → Msginf
with_err inf err = if err == 0 then inf else record inf { flags = add32 inf.flags err }

-- The interrupt sources and the message flags that the rest of the round goes on with.
unfoldable pub on_warning : ℕ → Msginf → M (ℕ × Msginf)
unfolding can_in undo_reset warn_flags fake_tx rxproduce errmsg
on_warning src inf = do
  mode ← can_in Register.canmode
  undo_reset mode
  s ← can_in Register.canstat
  src' ← if warn_flags s == 0 then fake_tx src else pure src
  rxproduce (errmsg (with_err inf (warn_flags s)))
  pure (src', with_err inf (warn_flags s))

unfoldable pub warn_part : ℕ → Msginf → M (ℕ × Msginf)
unfolding on_warning
warn_part src inf =
    if has src Register.can_error_warn_int then on_warning src inf else pure (src, inf)

unfoldable pub on_transmit : M (Unit {0})
unfolding consume_tx wake_if_low
on_transmit = do with_dev (λ d. record d { txinprogress = 0 }); consume_tx; wake_if_low

unfoldable pub transmit_part : ℕ → M (Unit {0})
unfolding on_transmit
transmit_part src = if has src Register.can_transmit_int then on_transmit else pure tt

abbrev pub with_ovr : Msginf → ℕ → Msginf
with_ovr inf s =
    if has s Register.can_data_overrun then record inf { flags = add32 inf.flags msg_ovr } else inf

unfoldable pub on_overrun : Msginf → M (Unit {0})
unfolding can_in can_out rxproduce errmsg
on_overrun inf = do
  with_vars (λ v. record v { overrun = add32 v.overrun 1 })
  s ← can_in Register.canstat
  rxproduce (errmsg (with_ovr inf s))
  can_out Register.cancmd Register.can_clear_overrun_status

unfoldable pub overrun_part : ℕ → Msginf → M (Unit {0})
unfolding on_overrun
overrun_part src inf = if has src Register.can_overrun_int then on_overrun inf else pure tt

-- The preset of the message flags tells that messages were lost before.
abbrev pub preset : (List Access → ℕ × ℕ) → St → Msginf
preset clock st = record {
  flags = if has st.dev.rxstatus buf_overrun then msg_bovr else 0;
  minor = st.dev.minor;
  tv_sec = (clock st.log).0;
  tv_usec = (clock st.log).1;
}

-- The body of the loop of CAN_Interrupt.
unfoldable pub isr_round : (List Access → ℕ × ℕ) → ℕ → M (Unit {0})
unfolding receive_part warn_part transmit_part overrun_part
isr_round clock src = do
  st ← state
  receive_part src (preset clock st)
  (src', inf) ← warn_part src (preset clock st)
  transmit_part src'
  overrun_part src' inf

-- The loop, for at most `fuel` rounds: the handler's answer, or `none` if there would be more.
unfoldable pub isr_loop : (List Access → ℕ × ℕ) → ℕ → ℕ → M (Option ℕ)
unfolding can_in isr_round
isr_loop clock zero src = pure none
isr_loop clock (suc fuel) src = do
  isr_round clock src
  next ← can_in Register.canirq
  if next == 0 then pure (some 1) else isr_loop clock fuel next

unfoldable pub can_interrupt : (List Access → ℕ × ℕ) → ℕ → M (Option ℕ)
unfolding can_in isr_loop
can_interrupt clock fuel = do
  src ← can_in Register.canirq
  if src == 0 then pure (some 1) else isr_loop clock fuel src

-- delayedmsgworker, the work of a timer.
unfoldable pub delayedmsgworker : M (Unit {0})
unfolding consume_tx wake_if_low
delayedmsgworker = do consume_tx; wake_if_low

-- The timer that has expired is no longer armed.
abbrev pub disarm : List Timer → ℕ → List Timer
disarm [] i = []
disarm (t ∷ l) zero = record t { armed = false } ∷ l
disarm (t ∷ l) (suc i) = t ∷ disarm l i

abbrev pub expired : Option ℕ → St → St
expired none st = st
expired (some i) st = record st { dly = disarm st.dly i }

-- dlyworker, when the timer of the device expires: it is not started again.
unfoldable pub dlyworker : M (Unit {0})
unfolding delayedmsgworker
dlyworker st = delayedmsgworker (expired st.dev.delayedwork st)

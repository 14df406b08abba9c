-- ===== src/Device.antt =====
-- open.c, close.c and the parts of util.c, core.c and sysctl.c that they use: the life of one device.
-- The kernel's replies are arguments: whether the I/O region is free, the result of `request_threaded_irq`, and what
-- `kmalloc` returns for the two queues.
pub mod Open
pub mod Close
pub mod Ready
pub mod Ioctl
pub mod Config
use c4l.Common.{
  ℕ, zero, suc, ◌+◌, ◌-◌, ◌^◌, Option, none, some, List, [], ◌∷◌, Bool, true, false, ◌==◌,
  if◌then◌else◌, ltb, slt32, is_neg32, u32, ◌>>=?◌,
}
use c4l.Message.{Msg}
use c4l.Msgq.{MsgQ, qcreate, qfree, qlen, qsize}
use c4l.Machine.{
  Access, Dev, Vars, St, M, pure, ◌>>=◌, ◌>>◌, state, with_dev, with_vars, Errno, einval, ebusy,
  enxio, enomem, ebadf, eio, Result, ok, err,
}
use c4l.Register
use c4l.Chip.{
  can_in, can_outc_val, chip_reset, start_chip, stop_chip, set_mask, set_timing, set_omode,
}

pub record Kernel : Type 0 where
  pub region_free : Bool
  pub irq_reply : ℕ
  pub rx_mem : Option (List Msg)
  pub tx_mem : Option (List Msg)

abbrev pub max_rx_bufsize : ℕ
max_rx_bufsize = 2048

abbrev pub max_tx_bufsize : ℕ
max_tx_bufsize = 128

-- `CAN_RANGE` of the controller, and `IO_MODEL`, the character 'p', of the target.
abbrev pub can_range : ℕ
can_range = 0x20

abbrev pub io_model : ℕ
io_model = 112

-- Can_RequestIrq: 0, or the kernel's error.
unfoldable pub request_irq : Kernel → M ℕ
request_irq k =
    with_dev (λ d. if k.irq_reply == 0 then record d { requested_irq = 1 } else d) >>= λ _.
    pure k.irq_reply

-- Can_FreeIrq.
unfoldable pub free_irq : M ℕ
free_irq = with_dev (λ d. record d { requested_irq = 0 }) >>= λ _. pure 0

-- Can_WaitInit.
unfoldable pub wait_init : M ℕ
wait_init = with_dev (λ d. record d { wq = 0 }) >>= λ _. pure 0

-- Can_FifoInit: -1 (the pattern 2 ^ 32 - 1) without memory. The second queue is not created if the first fails.
unfoldable pub fifo_init : Kernel → M ℕ
unfolding qcreate
fifo_init k st =
    let rx = qcreate st.dev.rxq max_rx_bufsize false k.rx_mem in
    let tx = qcreate st.dev.txq max_tx_bufsize true k.tx_mem in
    let st1 : St = record st { dev = record st.dev { rxq = rx.1 } } in
    let st2 : St = record st { dev = record st.dev { rxq = rx.1; txq = tx.1 } } in
    if rx.0 == 2 ^ 32 - 1
    then some (2 ^ 32 - 1, st1)
    else if tx.0 == 2 ^ 32 - 1
    then some (2 ^ 32 - 1, st2)
    else some (0, st2)

-- Can_FifoCleanup.
unfoldable pub fifo_cleanup : M ℕ
unfolding qfree
fifo_cleanup = with_dev (λ d. record d { txq = qfree d.txq; rxq = qfree d.rxq }) >>= λ _. pure 0

-- What CAN_VendorInit does after the region was granted.
unfoldable pub attach_irq : Kernel → M Result
unfolding request_irq
attach_irq k st =
    if slt32 0 st.vars.irq
    then (request_irq k >>= λ e. if e == 0 then pure (ok 0) else pure (err ebusy)) st
    else some (ok 0, st)

-- CAN_VendorInit.
unfoldable pub vendor_init : Kernel → M Result
unfolding attach_irq
vendor_init k = with_dev (λ d. record d { can_range = can_range }) >>= λ _.
    if k.region_free then attach_irq k else pure (err ebusy)

-- The end of can_open, with the result of CAN_ChipReset.
unfoldable pub open_chip : ℕ → M Result
unfolding start_chip
open_chip r = if is_neg32 r then pure (err einval) else (start_chip >>= λ _. pure (ok 0))

unfoldable pub open_queues : Kernel → M Result
unfolding wait_init fifo_init chip_reset open_chip
open_queues k = wait_init >>= λ _.
    fifo_init k >>= λ r. if is_neg32 r then pure (err enomem) else (chip_reset >>= open_chip)

unfoldable pub after_vendor : Kernel → Result → M Result
unfolding open_queues
after_vendor k (ok _) = open_queues k
after_vendor k (err e) = pure (err e)

unfoldable pub can_open : Kernel → M Result
unfolding vendor_init after_vendor
can_open k st =
    let opened : St = record st { dev = record st.dev { isopen = 1 } } in
    if ltb 3 st.dev.minor
    then some (err einval, st)
    else if st.dev.isopen == 1
    then some (err enxio, st)
    else if st.vars.base == 0
    then some (err enxio, opened)
    else (vendor_init k >>= after_vendor k) opened

-- The last test of can_close.
unfoldable pub close_count : M Result
close_count st =
    if slt32 0 st.dev.isopen
    then some (ok 0, record st { dev = record st.dev { isopen = st.dev.isopen - 1 } })
    else some (err ebadf, st)

unfoldable pub can_close : M Result
unfolding stop_chip fifo_cleanup free_irq close_count
can_close = stop_chip >>= λ _. fifo_cleanup >>= λ _. free_irq >>= λ _. close_count

-- core_init, for the device `i`, with the result of `register_chrdev`.
unfoldable pub core_init : ℕ → ℕ → M Result
core_init registered i st =
    let vars' : Vars = record st.vars {
      io_model = io_model;
      baud = 125;
      acc_code = 0xffff_ffff;
      acc_mask = 0xffff_ffff;
      timeout = 100;
      outc = can_outc_val;
    } in
    if registered == 0
    then some
        (ok 0, record st { vars = vars'; dev = record st.dev { minor = i; requested_irq = 0 } })
    else some (err eio, st)

-- ===== src/Examples/Life.antt =====
-- Runs of the setting up and the closing of a device.
use c4l.Common.{◌+◌, ◌-◌, ◌%◌, ◌^◌, ◌≡◌, ◌≢◌, ◌⊎◌, arith, some, if◌then◌else◌, ltb, u8, bit_and}
use c4l.Examples.{drained, kernel, kernel-Grants, present, ready, rx_mem, silent, tx_mem}
use c4l.Chip.Setup.{IsSetUp, chip_reset_lem, mode_answer, mode_read, with_outc}
use c4l.Device.Close.{can_close_lem, released}
use c4l.Device.Open.{can_open-can_open}
use c4l.Device.Ready.{OpensAs, can_open_ready}
use c4l.Machine.{Errno, Result, St, err, ok}
use c4l.Chip.{chip_reset}
use c4l.Chip.Shadow.{written}
use c4l.Device.{Kernel, can_close, can_open}
use c4l.Register

can_open_ready_example : OpensAs (can_open kernel) (ready present) 1
can_open_ready_example =
    can_open_ready kernel rx_mem tx_mem (ready present) kernel-Grants (omega arith)
      (λ e. omega (arith, e)) (λ e. omega (arith, e)) (λ e. omega (arith, e)) (drained 2048 rx_mem)
      (drained 128 tx_mem) (λ log e. omega (arith, e))

can_open-can_open_example :
    let k : Kernel = kernel in
    let k' : Kernel = kernel in
    let st : St = ready silent in
    (r : Result) × (st' : St) × (can_open k st ≡ some (r, st'))
    × (can_open k' st' ≡ some (err Errno.enxio, st'))
can_open-can_open_example = can_open-can_open kernel kernel (ready silent) (omega arith)

can_close_lem_example :
    let st : St = ready silent in
    let mode = u8 (st.env st.log (st.vars.base + Register.canmode)) in
    (r : Result) × (st' : St) × (can_close st ≡ some (r, st'))
    × (written st'.log (st.vars.base + Register.canmode) ≡ some (mode - mode % 2 + 1))
    × (st'.vars ≡ st.vars)
    × (st'.dev ≡ record (released st.dev) { isopen = st.dev.isopen - 1 })
    × (r ≡ (if ltb 0 st.dev.isopen then ok 0 else err Errno.ebadf))
can_close_lem_example = can_close_lem (ready silent) (omega arith)

chip_reset_lem_example :
    let st : St = ready present in
    ((bit_and (mode_answer st) Register.can_reset_request ≡ 0)
      × (chip_reset st ≡ some (2 ^ 32 - 1, record st { log = mode_read st })))
    ⊎ ((bit_and (mode_answer st) Register.can_reset_request ≢ 0)
        × ((st' : St) × (chip_reset st ≡ some (0, st'))
            × IsSetUp (with_outc st.vars) st'
            × (st'.vars ≡ with_outc st.vars)
            × (st'.dev ≡ st.dev)))
chip_reset_lem_example = chip_reset_lem (ready present)

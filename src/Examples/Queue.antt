-- ===== src/Examples/Queue.antt =====
-- Runs of the queues and of the calls of a user.
use c4l.Common.{
  ℕ, ◌+◌, ◌≡◌, refl, arith, some, List, [], ◌∷◌, ◌++◌, true, false, length, take, drop, replicate,
  length-replicate,
}
use c4l.Examples.{
  channel, empty_queue, empty_tx-IsValid, hello, later, ready, ready-IsOpen, sending,
  sending-IsOpen, silent, tx_mem,
}
use c4l.File.Read.{with_rx, can_read_lem}
use c4l.File.Split.{can_write-append, then_write}
use c4l.File.Start.{can_write-starts, woken_with}
use c4l.File.Write.{can_write_lem, room, with_tx}
use c4l.Msgq.Run.{run_ring, run_ring_refines}
use c4l.Message.{Msg, zero_msg}
use c4l.Machine.{◌>>=◌, St, ok}
use c4l.Msgq.Valid.{contents}
use c4l.File.{can_read, can_write}
use c4l.Isr.Calm.{Stays}
use c4l.Isr.Safe.{IsOpen, rx_bits, tx_bits}
use c4l.Isr.Transmit.{Turn}
use c4l.Msgq.Fifo.{get, put, run}

-- A device that has received `hello` and `later`.
abbrev receiving : St
receiving =
    channel silent
      (record {
        produced = 2;
        consumed = 0;
        mask = 2047;
        msgs = hello ∷ later ∷ replicate 2046 zero_msg;
        lk = false;
        idle = 1;
      })
      (empty_queue 128 tx_mem)

receiving-IsOpen : IsOpen receiving
receiving-IsOpen = record {
  rx_valid = record {
    small = omega arith;
    mask_of = refl;
    slots = omega (arith, length-replicate 2046 zero_msg);
    produced_in = omega arith;
    consumed_in = omega arith;
    fits = omega arith;
  };
  tx_valid = empty_tx-IsValid;
  baud_set = λ e. omega (arith, e);
}

run_ring_refines_example :
    run_ring (empty_queue 128 tx_mem) (put hello ∷ get ∷ get ∷ [])
    ≡ run 128 [] (put hello ∷ get ∷ get ∷ [])
run_ring_refines_example = run_ring_refines (put hello ∷ get ∷ get ∷ []) empty_tx-IsValid

can_write-starts_example :
    let m : Msg = hello in
    let ms : List Msg = later ∷ [] in
    let st : St = ready silent in
    (st1 : St) × (st' : St) × (can_write true (m ∷ ms) st
      ≡ some (ok (length (take (room st1) ms) + 1), st'))
    × Turn (woken_with m st) st1
    × (contents tx_bits (woken_with m st).dev.txq ≡ m ∷ [])
    × (contents tx_bits st'.dev.txq ≡ contents tx_bits st1.dev.txq ++ take (room st1) ms)
    × IsOpen st'
    × (st'.dev.txq.idle ≡ 0)
    × (st'.log ≡ st1.log)
    × IsOpen st1
    × (st1.dev.txq.idle ≡ 0)
    × (st1.vars ≡ st.vars)
    × (st' ≡ with_tx st1 st'.dev.txq)
    × (st1.dev.rxq ≡ st.dev.rxq)
    × Stays (woken_with m st) st1
can_write-starts_example =
    can_write-starts hello (later ∷ []) (ready silent) (ready-IsOpen silent) (λ e. omega (arith, e))
      refl

can_write_lem_example :
    let ms : List Msg = hello ∷ later ∷ [] in
    let st : St = sending silent hello in
    (st' : St) × (can_write true ms st ≡ some (ok (length (take (room st) ms)), st'))
    × (contents tx_bits st'.dev.txq ≡ contents tx_bits st.dev.txq ++ take (room st) ms)
    × IsOpen st'
    × (st'.dev.txq.idle ≡ 0)
    × (st'.dev.rxq ≡ st.dev.rxq)
    × (st'.log ≡ st.log)
    × (st' ≡ with_tx st st'.dev.txq)
can_write_lem_example =
    can_write_lem (hello ∷ later ∷ []) (sending silent hello) (sending-IsOpen silent hello) refl

can_read_lem_example :
    let count : ℕ = 1 in
    let st : St = receiving in
    let l = contents rx_bits st.dev.rxq in
    (st' : St) × (can_read true count st ≡ some ((ok (length (take count l)), take count l), st'))
    × (contents rx_bits st'.dev.rxq ≡ drop count l)
    × IsOpen st'
    × (st'.dev.txq ≡ st.dev.txq)
    × (st'.log ≡ st.log)
    × (st' ≡ with_rx st st'.dev.rxq)
can_read_lem_example = can_read_lem 1 receiving receiving-IsOpen

can_write-append_example :
    can_write true ((hello ∷ []) ++ later ∷ []) (ready silent)
    ≡ (can_write true (hello ∷ []) >>= then_write (length (hello ∷ [])) (later ∷ [])) (ready silent)
can_write-append_example = can_write-append (hello ∷ []) (later ∷ []) (ready silent)

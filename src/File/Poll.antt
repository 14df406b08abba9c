-- ===== src/File/Poll.antt =====
-- can_select: when the device counts as readable and as writable.
use c4l.Common.{ℕ, ◌≡◌, refl, arith, some, List, leb, ltb, slt32, bit_or, if◌then◌else◌, length}
use c4l.Message.{Msg}
use c4l.Msgq.{qlen}
use c4l.Msgq.Valid.{contents, length-contents}
use c4l.Machine.{St}
use c4l.File.{PollBits, can_select}
use c4l.Isr.Safe.{IsOpen, rx_bits, tx_bits, tx_low_lem}

-- The bits for a device with these messages in its queues.
unfoldable pub poll_bits : PollBits → List Msg → List Msg → ℕ
poll_bits bits received sending =
    let input : ℕ = if ltb 0 (length received) then bits.readable else 0 in
    if leb (length sending) 64 then bit_or input bits.writable else input

-- `can_select` changes nothing; an open device is readable when a message was received, and writable when at most half of the transmit queue is in use.
pub can_select_lem :
    (bits : PollBits) (st : St)
    → IsOpen st
    → can_select bits st
      ≡ some (poll_bits bits (contents rx_bits st.dev.rxq) (contents tx_bits st.dev.txq), st)
unfolding can_select poll_bits
can_select_lem bits st h =
    rw
      (
        tx_low_lem st.dev.txq h.tx_valid,
        length-contents rx_bits st.dev.rxq,
        length-contents tx_bits st.dev.txq,
        waiting,
      )
      refl
  where
    waiting : slt32 0 (qlen st.dev.rxq) ≡ ltb 0 (qlen st.dev.rxq)
    waiting = unfold qlen in ground (arith, h.rx_valid.fits)

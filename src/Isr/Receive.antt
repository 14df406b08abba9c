-- ===== src/Isr/Receive.antt =====
-- What becomes of a message that the handler puts into the receive queue.
use c4l.Common.{
  ℕ, ◌+◌, ◌^◌, ◌<◌, ◌≡◌, ◌⊎◌, inl, inr, sym, subst, ◌∙◌, ap, arith, some, [], ◌∷◌, ◌++◌, length,
  ◌>>=?◌,
}
use c4l.Message.{Msg}
use c4l.Msgq.{qlen, qproduce}
use c4l.Msgq.Valid.{contents}
use c4l.Msgq.Refine.{qproduce_refines}
use c4l.Msgq.Slots.{stored, free_slot}
use c4l.Machine.{St, M, ◌>>=◌, >>=-some, with_dev}
use c4l.Register
use c4l.Chip.{can_in}
use c4l.Frame.{Msginf, readcanmsg}
use c4l.Frame.Received.{Answers, IsRead, readcanmsg_lem, same_message}
use c4l.Isr.{rx_result, produce_rx, rxproduce, on_receive, clear_if_overrun, buf_ok, buf_overrun}
use c4l.Isr.Calm.{calm, Calm, Stays, readcanmsg-Calm}
use c4l.Isr.Safe.{IsOpen, rx_bits, clear_if_overrun-Calm}

-- What becomes of a message: it is lost, or the last of the receive queue.
abbrev pub RxProduces : (Msg → M Msg) → St → Type 0
RxProduces f st =
    ((qlen st.dev.rxq ≡ 2 ^ rx_bits)
      × (rxproduce f st ≡ some (tt, record st { dev = record st.dev { rxstatus = buf_overrun } })))
    ⊎ ((qlen st.dev.rxq < 2 ^ rx_bits)
        × ((m : Msg) × (st' : St) × (f (free_slot st.dev.rxq) st ≡ some (m, st'))
            × (rxproduce f st
                ≡ some (
                  tt,
                  record st' {
                    dev = record st'.dev {
                      rxq = stored st.dev.rxq m;
                      rxstatus = buf_ok;
                      wq = st'.dev.wq + 1;
                    };
                  },
                ))
            × (contents rx_bits (stored st.dev.rxq m) ≡ contents rx_bits st.dev.rxq ++ m ∷ [])
            × Stays st st'
            × (st'.dev.txq ≡ st.dev.txq)))

-- On an open device and with a callback that runs calmly: without a free slot the message is lost, nothing is called, and
-- the status tells of it; with one, what the callback makes of the slot is the last message, and one more wake-up is made.
pub rxproduce_lem :
    (f : Msg → M Msg) → ((m : Msg) → Calm (f m)) → (st : St) → IsOpen st → RxProduces f st
unfolding rxproduce produce_rx
rxproduce_lem f p st h = elim (qproduce_refines {k = rx_bits} {q = st.dev.rxq} f st h.rx_valid) [
  | inl (full, e) ↦
      inl (full, >>=-some (produce_rx f) (λ r. with_dev (rx_result r)) {st = st} (produced_none e))
  | inr (room, e, keep) ↦
      let (m, st', run, s, rx, tx) = (p (free_slot st.dev.rxq)).at st h.baud_set in
      inr (
        room,
        (
          m,
          st',
          run,
          >>=-some (produce_rx f) (λ r. with_dev (rx_result r)) {st = st} (produced_one e run),
          (keep m).1,
          s,
          tx,
        ),
      )
]
  where
    produced_none :
        qproduce st.dev.rxq f st ≡ some (0, st.dev.rxq, st) → produce_rx f st ≡ some (0, st)
    produced_none e = unfold produce_rx in rw e

    produced_one :
        {m : Msg} {st' : St}
        → qproduce st.dev.rxq f st
          ≡ (f (free_slot st.dev.rxq) st >>=? λ (m, s'). some (1, stored st.dev.rxq m, s'))
        → f (free_slot st.dev.rxq) st ≡ some (m, st')
        → produce_rx f st
          ≡ some (1, record st' { dev = record st'.dev { rxq = stored st.dev.rxq m } })
    produced_one e run = unfold produce_rx in rw (e, run)

-- The check for lost frames after a reception.
abbrev check : M (Unit {0})
check = can_in Register.canstat >>= clear_if_overrun

checks : Calm check
checks = search (calm, clear_if_overrun-Calm)

-- On an open device, the frame that the controller's registers answer becomes the last message of the receive queue if
-- there is a free slot, and the transmit queue is untouched. The free slot has an array of 8 bytes.
pub on_receive_lem :
    (a : ℕ → ℕ) (inf : Msginf) (st : St)
    → IsOpen st
    → Answers a st
    → length (free_slot st.dev.rxq).bytes ≡ 8
    → qlen st.dev.rxq < 2 ^ rx_bits
    → (m : Msg) × (st' : St) × (on_receive inf st ≡ some (tt, st'))
      × IsRead a inf (free_slot st.dev.rxq) m
      × (contents rx_bits st'.dev.rxq ≡ contents rx_bits st.dev.rxq ++ m ∷ [])
      × (st'.dev.txq ≡ st.dev.txq)
unfolding on_receive
on_receive_lem a inf st h ans eight room =
    elim (rxproduce_lem (readcanmsg inf) (readcanmsg-Calm inf) st h) [
      | inl (full, e) ↦ absurd (omega (arith, full))
      | inr (free, (m, st1, got, run, holds, stays, tx)) ↦
          let (m', st1', got', is_read, bytes, log, ev, ed) =
            readcanmsg_lem a inf (free_slot st.dev.rxq) st ans eight in
          let st2 : St = record st1 {
            dev = record st1.dev {
              rxq = stored st.dev.rxq m;
              rxstatus = buf_ok;
              wq = st1.dev.wq + 1;
            };
          } in
          let (u, st3, run3, stays3, rx3, tx3) =
            checks.at st2 (λ e. h.baud_set (sym stays.baud_same ∙ e)) in
          (
            m,
            st3,
            >>=-some (rxproduce (readcanmsg inf)) (λ _. check) {st = st} run ∙ run3,
            subst (IsRead a inf (free_slot st.dev.rxq)) (same_message got' got) is_read,
            ap (contents rx_bits) rx3 ∙ holds,
            tx3 ∙ tx,
          )
    ]

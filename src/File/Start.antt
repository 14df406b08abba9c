-- ===== src/File/Start.antt =====
-- can_write starts a transmit queue that is idle.
use c4l.Common.{
  ℕ, ◌+◌, ◌≡◌, ◌≢◌, refl, ◌∙◌, sym, subst, ap, arith, some, List, [], ◌∷◌, ◌++◌, true, false, ◌==◌,
  length, take, inl, inr,
}
use c4l.Message.{Msg}
use c4l.Msgq.Valid.{IsValid, contents}
use c4l.Msgq.Slots.{stored}
use c4l.Machine.{Vars, St, pure, ◌>>=◌, >>=-some, ok}
use c4l.File.{produce_tx, start_if_idle, write_more, write_loop, can_write}
use c4l.Isr.{consume_tx}
use c4l.Isr.Calm.{Stays}
use c4l.Isr.Safe.{Safe-end, consume_tx-Safe, IsOpen, rx_bits, tx_bits}
use c4l.Isr.Transmit.{Turn, consume_tx_lem, idles, sends, keeps}
use c4l.File.Write.{room, queued, with_tx, puts_one, write_loop_busy}

-- The queue with the message `m` alone, and no longer idle.
abbrev pub woken_with : Msg → St → St
woken_with m st = record st {
  dev = record st.dev { txq = record (stored st.dev.txq m) { idle = 0 } };
}

-- A turn that keeps the queue started, and the state of an open device.
Turn-IsOpen :
    (st : St)
    → IsOpen st
    → (m : Msg) → contents tx_bits st.dev.txq ≡ m ∷ []
    → st.dev.txq.idle ≡ 0
    → (r : ℕ) × (st' : St) × (consume_tx st ≡ some (r, st'))
      × Turn st st'
      × IsOpen st'
      × (st'.dev.txq.idle ≡ 0)
      × (st'.dev.rxq ≡ st.dev.rxq)
      × (st'.vars ≡ st.vars)
      × Stays st st'
Turn-IsOpen st h m holds busy =
    let (r, st', run, turn, valid, wq, rx, vars) = consume_tx_lem st h in
    (
      r,
      st',
      run,
      turn,
      record {
        rx_valid = subst (IsValid rx_bits) (sym rx) h.rx_valid;
        tx_valid = valid;
        baud_set = λ e. h.baud_set (ap (λ (v : Vars). v.baud) (sym vars) ∙ e);
      },
      still turn,
      rx,
      vars,
      (Safe-end consume_tx-Safe h run).0,
    )
  where
    still : {s : St} → Turn st s → s.dev.txq.idle ≡ 0
    still (idles empty a b c d t) = absurd (omega (arith, ap length (sym empty ∙ holds)))
    still (sends x r a b c d e f g) = e ∙ busy
    still (keeps x r a b c d e f) = e ∙ busy

-- A write to an idle and empty transmit queue starts it: the first message has its turn at once, and then the others
-- are appended as far as there is room.
pub can_write-starts :
    (m : Msg) (ms : List Msg) (st : St)
    → IsOpen st
    → st.dev.txq.idle ≢ 0
    → contents tx_bits st.dev.txq ≡ []
    → (st1 : St) × (st' : St) × (can_write true (m ∷ ms) st
        ≡ some (ok (length (take (room st1) ms) + 1), st'))
      × Turn (woken_with m st) st1
      × (contents tx_bits (woken_with m st).dev.txq ≡ m ∷ [])
      × (contents tx_bits st'.dev.txq ≡ contents tx_bits st1.dev.txq ++ take (room st1) ms)
      × IsOpen st'
      × (st'.dev.txq.idle ≡ 0)
      × (st'.log ≡ st1.log)
      × IsOpen st1
      × (st1.dev.txq.idle ≡ 0)
      × (st1.vars ≡ st.vars)
      × (st' ≡ with_tx st1 st'.dev.txq)
      × (st1.dev.rxq ≡ st.dev.rxq)
      × Stays (woken_with m st) st1
unfolding can_write write_loop write_more start_if_idle
can_write-starts m ms st h idle empty = elim (puts_one m st h) [
  | inl (full, run) ↦ absurd (omega (arith, ap length empty, full))
  | inr (free, run, holds, valid) ↦
      let one : contents tx_bits (stored st.dev.txq m) ≡ m ∷ [] =
        holds ∙ ap (λ (l : List Msg). l ++ m ∷ []) empty in
      let (r, st1, run1, turn, op1, busy1, rx1, vars1, stays1) =
        Turn-IsOpen (woken_with m st) (woken_open valid) m one refl in
      let (st2, run2, now, op2, busy2, rx2, log2, only) = write_loop_busy ms st1 op1 busy1 in
      (
        st1,
        st2,
        >>=-some (write_loop (m ∷ ms)) (λ w. pure (ok w)) {st = st}
            (>>=-some (produce_tx m) (write_more (write_loop ms)) {st = st} run
              ∙ >>=-some start_if_idle (λ _. write_loop ms >>= λ w. pure (w + 1)) {st = queued st m}
                  (started run1)
              ∙ >>=-some (write_loop ms) (λ w. pure (w + 1)) {st = st1} run2),
        turn,
        one,
        now,
        op2,
        busy2 ∙ busy1,
        log2,
        op1,
        busy1,
        vars1,
        only,
        rx1,
        stays1,
      )
]
  where
    woken_open : IsValid tx_bits (stored st.dev.txq m) → IsOpen (woken_with m st)
    woken_open v = record {
      rx_valid = h.rx_valid;
      tx_valid = record {
        small = v.small;
        mask_of = v.mask_of;
        slots = v.slots;
        produced_in = v.produced_in;
        consumed_in = v.consumed_in;
        fits = v.fits;
      };
      baud_set = h.baud_set;
    }

    not_idle : (st.dev.txq.idle == 0) ≡ false
    not_idle = ground arith

    started :
        {r : ℕ} {s : St}
        → consume_tx (woken_with m st) ≡ some (r, s)
        → start_if_idle (queued st m) ≡ some (tt, s)
    started run1 =
        rw (not_idle, start_if_idle)
          (>>=-some consume_tx (λ _. pure tt) {st = woken_with m st} run1)

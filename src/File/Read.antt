-- ===== src/File/Read.antt =====
-- can_read takes the oldest messages out of the receive queue.
use c4l.Common.{
  ℕ, zero, suc, ◌≡◌, refl, ◌∙◌, sym, ap, ap₂, arith, some, none, List, [], ◌∷◌, true, length, take,
  drop, inl, inr, ◌⊎◌,
}
use c4l.Message.{Msg}
use c4l.Msgq.{MsgQ}
use c4l.Msgq.Valid.{IsValid, contents}
use c4l.Msgq.Refine.{idle-IsValid, qconsume_refines}
use c4l.Msgq.Slots.{taken}
use c4l.Machine.{St, pure, >>=-some, ok}
use c4l.File.{read_more, copymsgtouser, consume_rx, read_loop, can_read, add_one}
use c4l.Isr.Safe.{IsOpen, rx_bits}

-- Another receive queue.
abbrev pub with_rx : St → MsgQ → St
with_rx s q = record s { dev = record s.dev { rxq = q } }

-- One message is taken: none of an empty queue, else the oldest.
abbrev TakesOne : St → Type 0
TakesOne st =
    ((contents rx_bits st.dev.rxq ≡ [])
      × ((st' : St) × (consume_rx st ≡ some ((0, none), st'))
          × (contents rx_bits st'.dev.rxq ≡ [])
          × IsOpen st'
          × (st'.dev.txq ≡ st.dev.txq)
          × (st'.log ≡ st.log)
          × (st' ≡ with_rx st st'.dev.rxq)))
    ⊎ ((x : Msg) × (rest : List Msg) × (contents rx_bits st.dev.rxq ≡ x ∷ rest)
        × ((st' : St) × (consume_rx st ≡ some ((1, some x), st'))
            × (contents rx_bits st'.dev.rxq ≡ rest)
            × IsOpen st'
            × (st'.dev.txq ≡ st.dev.txq)
            × (st'.log ≡ st.log)
            × (st' ≡ with_rx st st'.dev.rxq)))

takes_one : (st : St) → IsOpen st → TakesOne st
unfolding consume_rx
takes_one st h =
    elim (qconsume_refines {k = rx_bits} {q = st.dev.rxq} copymsgtouser none h.rx_valid) [
      | inl (empty, e) ↦ inl (
        empty,
        (
          with_rx st (record st.dev.rxq { idle = 1 }),
          rw e,
          empty,
          still (idle-IsValid h.rx_valid),
          refl,
          refl,
          refl,
        ),
      )
      | inr (x, rest, holds, e, keep) ↦ inr (
        x,
        rest,
        holds,
        (
          with_rx st (taken st.dev.rxq 1 x),
          rw e,
          (keep 1 x).1,
          still (keep 1 x).0,
          refl,
          refl,
          refl,
        ),
      )
    ]
  where
    still : {q : MsgQ} → IsValid rx_bits q → IsOpen (with_rx st q)
    still v = record { rx_valid = v; tx_valid = h.tx_valid; baud_set = h.baud_set }

-- What a read of at most `count` messages gives.
abbrev Reads : ℕ → St → List Msg → Type 0
Reads count st l =
    (st' : St) × (read_loop count st ≡ some ((length (take count l), take count l), st'))
    × (contents rx_bits st'.dev.rxq ≡ drop count l)
    × IsOpen st'
    × (st'.dev.txq ≡ st.dev.txq)
    × (st'.log ≡ st.log)
    × (st' ≡ with_rx st st'.dev.rxq)

cons_eq : {x y : Msg} {xs ys : List Msg} → x ∷ xs ≡ y ∷ ys → (x ≡ y) × (xs ≡ ys)
cons_eq e = (cc, cc)

read_loop_lem :
    (count : ℕ) (st : St) (l : List Msg)
    → IsOpen st
    → contents rx_bits st.dev.rxq ≡ l
    → Reads count st l
unfolding read_loop
read_loop_lem zero st l h e = (st, refl, e, h, refl, refl, refl)
read_loop_lem (suc count) st [] h e = elim (takes_one st h) [
  | inl (empty, (st', run, now, op, tx, log, only)) ↦
      (st', >>=-some consume_rx (read_more (read_loop count)) {st = st} run, now, op, tx, log, only)
  | inr (x, rest, holds, more) ↦ absurd (omega (arith, ap length (sym e ∙ holds)))
]
read_loop_lem (suc count) st (m ∷ l) h e = elim (takes_one st h) [
  | inl (empty, more) ↦ absurd (omega (arith, ap length (sym e ∙ empty)))
  | inr (x, rest, holds, (st1, run, now, op, tx, log, only)) ↦
      let (same, others) = cons_eq (sym holds ∙ e) in
      let (st2, run2, now2, op2, tx2, log2, only2) = read_loop_lem count st1 l op (now ∙ others) in
      (
        st2,
        >>=-some consume_rx (read_more (read_loop count)) {st = st} run
            ∙ >>=-some (read_loop count) (λ r. pure (add_one (some x) r)) {st = st1} run2
            ∙ ap₂ (λ (n : ℕ) (y : Msg). some ((n, y ∷ take count l), st2)) (omega arith) same,
        now2,
        op2,
        tx2 ∙ tx,
        log2 ∙ log,
        only2 ∙ ap (λ (s : St). with_rx s st2.dev.rxq) only,
      )
]

-- A read of an open device returns the oldest messages of the receive queue, in order, at most `count` of them; the others
-- stay, and neither the transmit queue nor the controller is touched.
pub can_read_lem :
    (count : ℕ) (st : St)
    → IsOpen st
    → let l = contents rx_bits st.dev.rxq in
      (st' : St) × (can_read true count st ≡ some ((ok (length (take count l)), take count l), st'))
      × (contents rx_bits st'.dev.rxq ≡ drop count l)
      × IsOpen st'
      × (st'.dev.txq ≡ st.dev.txq)
      × (st'.log ≡ st.log)
      × (st' ≡ with_rx st st'.dev.rxq)
unfolding can_read
can_read_lem count st h =
    let (st', run, now, op, tx, log, only) =
      read_loop_lem count st (contents rx_bits st.dev.rxq) h refl in
    (
      st',
      >>=-some (read_loop count) (λ (written, out). pure (ok written, out)) {st = st} run,
      now,
      op,
      tx,
      log,
      only,
    )

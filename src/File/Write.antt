-- ===== src/File/Write.antt =====
-- can_write puts messages into the transmit queue that is not idle.
use c4l.Common.{
  ℕ, zero, suc, ◌+◌, ◌-◌, ◌≡◌, ◌≢◌, refl, ◌∙◌, sym, ap, arith, some, List, [], ◌∷◌, ◌++◌, true,
  length, length-append, take, inl, inr, ◌⊎◌,
}
use c4l.Message.{Msg}
use c4l.Msgq.{MsgQ}
use c4l.Msgq.Valid.{IsValid, contents, length-contents}
use c4l.Msgq.Refine.{qproduce_refines}
use c4l.Msgq.Slots.{stored}
use c4l.Machine.{St, pure, ◌>>=◌, >>=-some, ok}
use c4l.File.{copyusermsg, produce_tx, start_if_idle, write_more, write_loop, can_write}
use c4l.Isr.Safe.{IsOpen, tx_bits}

-- The free slots of the transmit queue.
abbrev pub room : St → ℕ
room st = 128 - length (contents tx_bits st.dev.txq)

-- The state after a message has been put into the transmit queue.
abbrev pub queued : St → Msg → St
queued st m = record st { dev = record st.dev { txq = stored st.dev.txq m } }

-- A message is queued if there is room.
abbrev pub PutsOne : Msg → St → Type 0
PutsOne m st =
    ((room st ≡ 0) × (produce_tx m st ≡ some (0, st)))
    ⊎ ((room st ≢ 0)
        × (produce_tx m st ≡ some (1, queued st m))
        × (contents tx_bits (stored st.dev.txq m) ≡ contents tx_bits st.dev.txq ++ m ∷ [])
        × IsValid tx_bits (stored st.dev.txq m))

pub puts_one : (m : Msg) (st : St) → IsOpen st → PutsOne m st
unfolding produce_tx
puts_one m st h =
    elim (qproduce_refines {k = tx_bits} {q = st.dev.txq} (copyusermsg m) st h.tx_valid) [
      | inl (full, e) ↦ inl (omega (arith, full, length-contents tx_bits st.dev.txq), rw e)
      | inr (free, e, keep) ↦
          inr
            (omega (arith, free, length-contents tx_bits st.dev.txq), rw e, (keep m).1, (keep m).0)
    ]

append_assoc : (xs ys : List Msg) (m : Msg) → (xs ++ m ∷ []) ++ ys ≡ xs ++ m ∷ ys
append_assoc [] ys m = refl
append_assoc (x ∷ xs) ys m = ap (◌∷◌ x) (append_assoc xs ys m)

take_room : (n : ℕ) (m : Msg) (ms : List Msg) → n ≢ 0 → take n (m ∷ ms) ≡ m ∷ take (n - 1) ms
take_room zero m ms h = absurd (h refl)
take_room (suc n) m ms h = ap (λ k. m ∷ take k ms) (omega arith)

-- The state with another transmit queue.
abbrev pub with_tx : St → MsgQ → St
with_tx st q = record st { dev = record st.dev { txq = q } }

-- A write of `ms` to a queue that is not idle.
abbrev pub Queues : List Msg → St → Type 0
Queues ms st =
    (st' : St) × (write_loop ms st ≡ some (length (take (room st) ms), st'))
    × (contents tx_bits st'.dev.txq ≡ contents tx_bits st.dev.txq ++ take (room st) ms)
    × IsOpen st'
    × (st'.dev.txq.idle ≡ st.dev.txq.idle)
    × (st'.dev.rxq ≡ st.dev.rxq)
    × (st'.log ≡ st.log)
    × (st' ≡ with_tx st st'.dev.txq)

append_nil : (xs : List Msg) → xs ++ [] ≡ xs
append_nil [] = refl
append_nil (x ∷ xs) = ap (◌∷◌ x) (append_nil xs)

take_zero : (n : ℕ) (ms : List Msg) → n ≡ 0 → take n ms ≡ []
take_zero n ms e = rw e

take_nil : (n : ℕ) → take {A = Msg} n [] ≡ []
take_nil zero = refl
take_nil (suc n) = refl

room-queued :
    (m : Msg) (st : St)
    → contents tx_bits (stored st.dev.txq m) ≡ contents tx_bits st.dev.txq ++ m ∷ []
    → room (queued st m) ≡ room st - 1
room-queued m st e = rw (e, length-append (contents tx_bits st.dev.txq) (m ∷ [])) (omega arith)

pub write_loop_busy : (ms : List Msg) (st : St) → IsOpen st → st.dev.txq.idle ≡ 0 → Queues ms st
unfolding write_loop write_more start_if_idle
write_loop_busy [] st h busy = (
  st,
  ap (λ (l : List Msg). some (length l, st)) (sym (take_nil (room st))),
  sym (ap (λ (l : List Msg). contents tx_bits st.dev.txq ++ l) (take_nil (room st)) ∙ append_nil _),
  h,
  refl,
  refl,
  refl,
  refl,
)
write_loop_busy (m ∷ ms) st h busy = elim (puts_one m st h) [
  | inl (full, run) ↦ (
    st,
    >>=-some (produce_tx m) (write_more (write_loop ms)) {st = st} run
        ∙ ap (λ (l : List Msg). some (length l, st)) (sym (take_zero (room st) (m ∷ ms) full)),
    sym (
        ap (λ (l : List Msg). contents tx_bits st.dev.txq ++ l) (take_zero (room st) (m ∷ ms) full)
        ∙ append_nil _),
    h,
    refl,
    refl,
    refl,
    refl,
  )
  | inr (free, run, holds, valid) ↦
      let (st2, run2, now, op, idle, rx, log, only) =
        write_loop_busy ms (queued st m) (open_queued valid) busy in
      (
        st2,
        >>=-some (produce_tx m) (write_more (write_loop ms)) {st = st} run
            ∙ then_rest holds free run2,
        now ∙ all holds free,
        op,
        idle,
        rx,
        log,
        only,
      )
]
  where
    open_queued : IsValid tx_bits (stored st.dev.txq m) → IsOpen (queued st m)
    open_queued v = record { rx_valid = h.rx_valid; tx_valid = v; baud_set = h.baud_set }

    started : start_if_idle (queued st m) ≡ some (tt, queued st m)
    started = rw (busy, start_if_idle)

    one_more :
        contents tx_bits (stored st.dev.txq m) ≡ contents tx_bits st.dev.txq ++ m ∷ []
        → room st ≢ 0
        → length (take (room (queued st m)) ms) + 1 ≡ length (take (room st) (m ∷ ms))
    one_more holds free = rw (room-queued m st holds, take_room (room st) m ms free) (omega arith)

    then_rest :
        {st2 : St}
        → contents tx_bits (stored st.dev.txq m) ≡ contents tx_bits st.dev.txq ++ m ∷ []
        → room st ≢ 0
        → write_loop ms (queued st m) ≡ some (length (take (room (queued st m)) ms), st2)
        → write_more (write_loop ms) 1 (queued st m) ≡ some (length (take (room st) (m ∷ ms)), st2)
    then_rest {st2} holds free run2 =
        >>=-some start_if_idle (λ _. write_loop ms >>= λ w. pure (w + 1)) {st = queued st m} started
        ∙ >>=-some (write_loop ms) (λ w. pure (w + 1)) {st = queued st m} run2
        ∙ ap (λ (n : ℕ). some (n, st2)) (one_more holds free)

    all :
        contents tx_bits (stored st.dev.txq m) ≡ contents tx_bits st.dev.txq ++ m ∷ []
        → room st ≢ 0
        → contents tx_bits (stored st.dev.txq m) ++ take (room (queued st m)) ms
          ≡ contents tx_bits st.dev.txq ++ take (room st) (m ∷ ms)
    all holds free =
        rw (room-queued m st holds, holds, take_room (room st) m ms free)
          (append_assoc (contents tx_bits st.dev.txq) (take (room st - 1) ms) m)

-- A write to a transmit queue that is not idle appends the first messages of the buffer, as many as there is room for, and
-- returns their number. Nothing else changes: the controller is not accessed.
pub can_write_lem :
    (ms : List Msg) (st : St)
    → IsOpen st
    → st.dev.txq.idle ≡ 0
    → (st' : St) × (can_write true ms st ≡ some (ok (length (take (room st) ms)), st'))
      × (contents tx_bits st'.dev.txq ≡ contents tx_bits st.dev.txq ++ take (room st) ms)
      × IsOpen st'
      × (st'.dev.txq.idle ≡ 0)
      × (st'.dev.rxq ≡ st.dev.rxq)
      × (st'.log ≡ st.log)
      × (st' ≡ with_tx st st'.dev.txq)
unfolding can_write
can_write_lem ms st h busy =
    let (st', run, holds, op, idle, rx, log, only) = write_loop_busy ms st h busy in
    (
      st',
      >>=-some (write_loop ms) (λ w. pure (ok w)) {st = st} run,
      holds,
      op,
      idle ∙ busy,
      rx,
      log,
      only,
    )

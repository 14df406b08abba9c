-- ===== src/Msgq/Threads/Alone.antt =====
-- Without the other in between, the steps of the writer and of the reader are qproduce and qconsume.
use c4l.Common.{
  true, ap, sym, ◌∙◌, ℕ, ◌≡◌, inl, inr, refl, Option, some, List, [], ◌∷◌, Bool-cases, ◌==◌, ◌>>=?◌,
  slt32, sub32, get_elem?, bit_and, Option-cases,
}
use c4l.Message.{Msg}
use c4l.Msgq.{MsgQ, qproduce, qconsume}
use c4l.Msgq.Threads.{
  Side, resting, Reader, looking, Threads, write, read, write_step, read_step, call_back, turn,
  turns,
}

-- Only the ring of a result.
abbrev pub ring_of : Option Threads → Option MsgQ
ring_of o = o >>=? λ t. some t.q

abbrev pub ring_left : Option (ℕ × MsgQ × Unit {0}) → Option MsgQ
ring_left o = o >>=? λ (r, q, s). some q

-- The writer between two messages, and the reader at `r`.
abbrev pub between : MsgQ → List Msg → List Msg → Reader → Threads
between q accepted given r = record {
  q = q;
  writer = resting;
  reader = r;
  accepted = accepted;
  given = given;
}

module _ (consume : Msg → ℕ × Msg) (q : MsgQ) (accepted given : List Msg) where
  turn-full :
      (m : Msg) (r : Reader)
      → slt32 q.mask (sub32 q.produced q.consumed) ≡ true
      → turn consume (write m) (between q accepted given r) ≡ some (between q accepted given r)
  unfolding turn write_step
  turn-full m r full = rw full refl

  turns-full :
      (m : Msg) (r : Reader) (xs : List Side)
      → slt32 q.mask (sub32 q.produced q.consumed) ≡ true
      → turns consume (write m ∷ xs) (between q accepted given r)
        ≡ turns consume xs (between q accepted given r)
  unfolding turns
  turns-full m r xs full = ap (λ (o : Option Threads). o >>=? turns consume xs) (turn-full m r full)

  unchanged :
      (m : Msg) (r : Reader)
      → slt32 q.mask (sub32 q.produced q.consumed) ≡ true
      → turns consume (write m ∷ write m ∷ write m ∷ []) (between q accepted given r)
        ≡ some (between q accepted given r)
  unfolding turns
  unchanged m r full =
      turns-full m r (write m ∷ write m ∷ []) full
      ∙ turns-full m r (write m ∷ []) full
      ∙ turns-full m r [] full

  not_produced :
      (m : Msg)
      → slt32 q.mask (sub32 q.produced q.consumed) ≡ true
      → ring_left (qproduce q (λ slot s. some (m, s)) tt) ≡ some q
  unfolding qproduce
  not_produced m full = rw full refl

  writes_alone :
      (m : Msg) (slot : Msg) (r : Reader)
      → get_elem? q.msgs (bit_and q.produced q.mask) ≡ some slot
      → ring_of (turns consume (write m ∷ write m ∷ write m ∷ []) (between q accepted given r))
        ≡ ring_left (qproduce q (λ slot s. some (m, s)) tt)
  unfolding turns turn write_step qproduce
  writes_alone m slot r e = elim (Bool-cases (slt32 q.mask (sub32 q.produced q.consumed))) [
    | inl full ↦ ap ring_of (unchanged m r full) ∙ sym (not_produced m full)
    | inr room ↦ rw (room, e) refl
  ]

  reads_alone :
      ring_of (turns consume (read ∷ read ∷ read ∷ []) (between q accepted given looking))
      ≡ ring_left (qconsume q (λ x s. some (consume x, s)) tt)
  unfolding turns turn read_step call_back qconsume
  reads_alone = elim (Bool-cases (q.produced == q.consumed)) [
    | inl empty ↦ rw empty refl
    | inr some_in ↦ rw some_in (elim (Option-cases (get_elem? q.msgs (bit_and q.consumed q.mask))) [
      | inl out ↦ rw out refl
      | inr (x, e) ↦ rw e (elim (Bool-cases ((consume x).0 == 0)) [
        | inl kept ↦ rw kept refl
        | inr over ↦ rw over refl
      ])
    ])
  ]

-- From any state of the ring with a slot in reach, three steps of the writer with no step of the reader in between leave the
-- ring as qproduce does with a callback that stores `m`, and three steps of the reader with none of the writer as qconsume
-- does, its faults included.
pub turns_alone :
    (consume : Msg → ℕ × Msg) (q : MsgQ) (accepted given : List Msg) (m slot : Msg) (r : Reader)
    → get_elem? q.msgs (bit_and q.produced q.mask) ≡ some slot
    → (ring_of (turns consume (write m ∷ write m ∷ write m ∷ []) (between q accepted given r))
        ≡ ring_left (qproduce q (λ slot s. some (m, s)) tt))
      × (ring_of (turns consume (read ∷ read ∷ read ∷ []) (between q accepted given looking))
          ≡ ring_left (qconsume q (λ x s. some (consume x, s)) tt))
turns_alone consume q accepted given m slot r e =
    (writes_alone consume q accepted given m slot r e, reads_alone consume q accepted given)

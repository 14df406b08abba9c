-- ===== src/Msgq/Run.antt =====
-- A valid ring behaves as the bounded queue of the messages that it holds.
use c4l.Common.{
  none, refl, inl, inr, ℕ, ◌^◌, ◌<◌, ◌≡◌, inl, inr, ap, ◌∙◌, arith, List, [], ◌∷◌, ◌++◌, Option,
  some, length,
}
use c4l.Message.{Msg}
use c4l.Msgq.{MsgQ, qproduce, qconsume}
use c4l.Msgq.Fifo.{Op, put, get, Reply, push, run}
use c4l.Msgq.Valid.{IsValid, contents, length-contents}
use c4l.Msgq.Refine.{idle-IsValid, qproduce_refines, qconsume_refines}

-- The calls of `Fifo.run` on a ring: `put` copies a message in, `get` copies one out.
abbrev pub copy_in : Msg → Msg → Option Msg → Option (Msg × Option Msg)
copy_in m slot s = some (m, s)

abbrev pub copy_out : Msg → Option Msg → Option ((ℕ × Msg) × Option Msg)
copy_out m s = some ((1, m), some m)

abbrev and_then : Option (ℕ × MsgQ × Option Msg) → (MsgQ → List Reply) → List Reply
and_then none k = []
and_then (some (r, q, out)) k = (r, out) ∷ k q

pub run_ring : MsgQ → List Op → List Reply
run_ring q [] = []
run_ring q (put m ∷ ops) = and_then (qproduce q (copy_in m) none) (λ q'. run_ring q' ops)
run_ring q (get ∷ ops) = and_then (qconsume q copy_out none) (λ q'. run_ring q' ops)

push-full : (size : ℕ) (l : List Msg) (m : Msg) → length l ≡ size → push size l m ≡ (0, l)
unfolding push
push-full size l m e = ground arith

push-room : (size : ℕ) (l : List Msg) (m : Msg) → length l < size → push size l m ≡ (1, l ++ m ∷ [])
unfolding push
push-room size l m h = ground arith

-- No sequence of calls tells a valid ring of 2 ^ k slots from the queue of its messages that holds
-- at most 2 ^ k of them.
pub run_ring_refines :
    {k : ℕ} (ops : List Op) {q : MsgQ}
    → IsValid k q
    → run_ring q ops ≡ run (2 ^ k) (contents k q) ops
unfolding run_ring run push
run_ring_refines [] v = refl
run_ring_refines {k} (put m ∷ ops) {q} v = elim (qproduce_refines (copy_in m) none v) [
  | inl (full, e) ↦
      rw (e, push-full (2 ^ k) (contents k q) m (length-contents k q ∙ full))
        (ap (◌∷◌ (0, none)) (run_ring_refines ops v))
  | inr (room, e, keep) ↦
      rw (e, push-room (2 ^ k) (contents k q) m (rw length-contents room), ← (keep m).1)
        (ap (◌∷◌ (1, none)) (run_ring_refines ops (keep m).0))
]
run_ring_refines {k} (get ∷ ops) {q} v = elim (qconsume_refines copy_out none v) [
  | inl (empty, e) ↦
      rw (e, empty)
        (ap (◌∷◌ (0, none))
          (run_ring_refines ops (idle-IsValid v) ∙ ap (λ l. run (2 ^ k) l ops) empty))
  | inr (x, rest, holds, e, keep) ↦
      rw (e, holds)
        (ap (◌∷◌ (1, some x))
          (run_ring_refines ops (keep 1 x).0 ∙ ap (λ l. run (2 ^ k) l ops) (keep 1 x).1))
]

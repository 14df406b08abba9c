-- ===== src/Msgq/Threads.antt =====
-- msgq.c: the ring between a writer and a reader at once, each of whose calls is cut where the other may come in between. The
-- writer is a loop of can_write, with the test of `idle` in write.c; the reader is the one that consumes: the writer's own call
-- of `qconsume`, then the interrupt handler's. That there is only one of each is what msgq.c asks for.
pub mod Pieces
pub mod Consistent
pub mod Writing
pub mod Reading
pub mod Order
pub mod Alone
use c4l.Common.{
  ℕ, Option, none, some, List, [], ◌∷◌, ◌++◌, bit_and, add32, sub32, slt32, ◌==◌, if◌then◌else◌,
  get_elem?, set, ◌>>=?◌,
}
use c4l.Message.{Msg}
use c4l.Msgq.{MsgQ}

-- Where the writer is: between two messages, after the test for room, with the slot filled, with the message counted, or with
-- `idle` found set.
pub data Writer : Type 0 where
  resting : Writer
  allowed : Msg → Writer
  filled : Msg → Writer
  published : Writer
  restarting : Writer

-- Where the reader is: it has found the ring empty, is about to look, has found a message, or has the callback's answer for
-- the message `x`.
pub data Reader : Type 0 where
  stopped : Reader
  looking : Reader
  sure : Reader
  called : (answer : ℕ) → (x : Msg) → Reader

-- `accepted` and `given` are the messages counted by the writer, and those that the reader is done with.
pub record Threads : Type 0 where
  pub q : MsgQ
  pub writer : Writer
  pub reader : Reader
  pub accepted : List Msg
  pub given : List Msg

-- The parts of qproduce.
abbrev pub fill : MsgQ → Msg → MsgQ
fill q m = record q { msgs = set q.msgs (bit_and q.produced q.mask) m }

abbrev pub publish : MsgQ → MsgQ
publish q = record q { produced = add32 q.produced 1 }

-- The parts of qconsume.
abbrev pub left_in_slot : MsgQ → Msg → MsgQ
left_in_slot q m = record q { msgs = set q.msgs (bit_and q.consumed q.mask) m }

abbrev pub count_read : MsgQ → MsgQ
count_read q = record q { consumed = add32 q.consumed 1 }

-- The test of `idle` in can_write, and what it does if it is set: the reader is started.
abbrev pub look_at_idle : Threads → Threads
look_at_idle t =
    if t.q.idle == 0 then record t { writer = resting } else record t { writer = restarting }

abbrev pub restart : Threads → Threads
restart t = record t { q = record t.q { idle = 0 }; writer = resting; reader = looking }

-- The next step of the writer, with the message `m` next.
unfoldable pub write_step : Writer → Msg → Threads → Threads
write_step resting m t =
    if slt32 t.q.mask (sub32 t.q.produced t.q.consumed) then t else record t { writer = allowed m }
write_step (allowed x) m t = record t { q = fill t.q x; writer = filled x }
write_step (filled x) m t = record t {
  q = publish t.q;
  writer = published;
  accepted = t.accepted ++ x ∷ [];
}
write_step published m t = look_at_idle t
write_step restarting m t = restart t

-- Whose turn it is.
pub data Side : Type 0 where
  write : Msg → Side
  read : Side

module _ (consume : Msg → ℕ × Msg) where
  -- The callback gets the oldest message, and leaves one in its slot.
  unfoldable pub call_back : Threads → Option Threads
  call_back t = get_elem? t.q.msgs (bit_and t.q.consumed t.q.mask) >>=? λ x.
      some (record t { q = left_in_slot t.q (consume x).1; reader = called (consume x).0 x })

  -- The next step of the reader.
  unfoldable pub read_step : Reader → Threads → Option Threads
  unfolding call_back
  read_step stopped t = some t
  read_step looking t = some (
      if t.q.produced == t.q.consumed
      then record t { q = record t.q { idle = 1 }; reader = stopped }
      else record t { reader = sure })
  read_step sure t = call_back t
  read_step (called answer x) t = some (
      if answer == 0
      then record t { reader = looking }
      else record t { q = count_read t.q; reader = looking; given = t.given ++ x ∷ [] })

  unfoldable pub turn : Side → Threads → Option Threads
  unfolding write_step read_step
  turn (write m) t = some (write_step t.writer m t)
  turn read t = read_step t.reader t

  -- The turns in any order.
  unfoldable pub turns : List Side → Threads → Option Threads
  unfolding turn
  turns [] t = some t
  turns (x ∷ xs) t = turn x t >>=? turns xs

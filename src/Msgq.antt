-- ===== src/Msgq.antt =====
-- msgq.c: the ring of messages between an interrupt handler and a user's calls.
-- The counters are `int`s that run on and wrap at 2 ^ 32; a slot is found by `&` with the mask.
-- The spin lock is not modelled: each function is one step; Threads cuts them into smaller ones. `Option` is a fault of the machine.

pub mod Valid
pub mod Fifo
pub mod Slots
pub mod Refine
pub mod Run
pub mod Threads
use c4l.Common.{
  ℕ, ◌-◌, Option, none, some, List, [], bit_and, add32, sub32, slt32, ◌==◌, if◌then◌else◌,
  get_elem?, set, ◌>>=?◌, Bool, true, ◌^◌,
}
use c4l.Message.{Msg}

-- `data` is `msgs`. `lk` tells whether the field points at the lock.
pub record MsgQ : Type 0 where
  pub produced : ℕ
  pub consumed : ℕ
  pub mask : ℕ
  pub msgs : List Msg
  pub lk : Bool
  pub idle : ℕ

unfoldable pub qlen : MsgQ → ℕ
qlen q = sub32 q.produced q.consumed

unfoldable pub qsize : MsgQ → ℕ
qsize q = add32 q.mask 1

-- The callbacks get the slot and the rest `S` of the driver's state. `produce` fills the slot.
unfoldable pub qproduce :
    {S : Type 0} → MsgQ → (Msg → S → Option (Msg × S)) → S → Option (ℕ × MsgQ × S)
qproduce q produce s =
    let i = bit_and q.produced q.mask in
    if slt32 q.mask (sub32 q.produced q.consumed)
    then some (0, q, s)
    else get_elem? q.msgs i >>=? λ slot. produce slot s >>=? λ (m, s').
        some (1, record q { msgs = set q.msgs i m; produced = add32 q.produced 1 }, s')

-- `consume` may write to the slot, and answers whether the message is consumed.
unfoldable pub qconsume :
    {S : Type 0} → MsgQ → (Msg → S → Option ((ℕ × Msg) × S)) → S → Option (ℕ × MsgQ × S)
qconsume q consume s =
    let i = bit_and q.consumed q.mask in
    if q.produced == q.consumed
    then some (0, record q { idle = 1 }, s)
    else get_elem? q.msgs i >>=? λ slot. consume slot s >>=? λ (r, s').
        let q' : MsgQ = record q { msgs = set q.msgs i r.1 } in
        some (1, if r.0 == 0 then q' else record q' { consumed = add32 q.consumed 1 }, s')

-- `mem` is what `kmalloc` returns: the slots with whatever they hold, or `none` for NULL. The
-- counters are left as they are; -1 is the pattern 2 ^ 32 - 1.
unfoldable pub qcreate : MsgQ → ℕ → Bool → Option (List Msg) → ℕ × MsgQ
qcreate q sz protect none = (2 ^ 32 - 1, record q { msgs = [] })
qcreate q sz protect (some mem) =
    (0, record q { msgs = mem; mask = sub32 sz 1; idle = 1; lk = if protect then true else q.lk })

-- After `kfree` a use of the slots is a fault. The counters are left as they are.
unfoldable pub qfree : MsgQ → MsgQ
qfree q = record q { msgs = [] }

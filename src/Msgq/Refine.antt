-- ===== src/Msgq/Refine.antt =====
-- What the two operations do to the messages that a valid ring holds.
use c4l.Common.{
  refl, true, ◌⊎◌, inl, inr, ℕ, ◌^◌, ◌<◌, ◌≡◌, inl, inr, ap, arith, List, [], ◌∷◌, ◌++◌, Option,
  some, length, ◌>>=?◌, if◌then◌else◌, ◌==◌,
}
use native.Mathlib.Decide.{dec_lt}
use c4l.Message.{Msg}
use c4l.Msgq.{MsgQ, qlen, qproduce, qconsume}
use c4l.Msgq.Valid.{IsValid, contents, length-contents}
use c4l.Msgq.Slots.{
  contents-cons, contents-stored, contents-taken, free_slot, qconsume-some, qlen-zero_iff,
  qproduce-full, qproduce-room, stored, stored-IsValid, taken, taken-IsValid,
}

-- What `qproduce` makes of a ring `q` and a callback `f`: without a free slot nothing is called and
-- nothing changes; else `f` gets the slot, and what it leaves there becomes the last message.
abbrev pub Produces : {S : Type 0} → ℕ → MsgQ → (Msg → S → Option (Msg × S)) → S → Type 0
Produces k q f s =
    ((qlen q ≡ 2 ^ k) × (qproduce q f s ≡ some (0, q, s)))
    ⊎ ((qlen q < 2 ^ k)
        × (qproduce q f s ≡ (f (free_slot q) s >>=? λ (m, s'). some (1, stored q m, s')))
        × ((m : Msg) → IsValid k (stored q m) × (contents k (stored q m) ≡ contents k q ++ m ∷ [])))

-- On a full valid ring `qproduce` calls nothing and changes nothing; else what the callback leaves in the slot becomes the
-- last message, and the ring is valid again.
pub qproduce_refines :
    {S : Type 0} {k : ℕ} {q : MsgQ} (f : Msg → S → Option (Msg × S)) (s : S)
    → IsValid k q
    → Produces k q f s
qproduce_refines {k} {q} f s v = elim (dec_lt (qlen q) (2 ^ k)) [
  | yes room ↦
      inr (room, qproduce-room f s v room, λ m. (stored-IsValid m v room, contents-stored m v room))
  | no full ↦ inl (is_full full, qproduce-full f s v (is_full full))
]
  where
    is_full : ¬ (qlen q < 2 ^ k) → qlen q ≡ 2 ^ k
    is_full h = unfold qlen in omega (arith, v.fits)

-- What `qconsume` makes of a ring `q` and a callback `f`: on an empty ring it only sets `idle`; else
-- `f` gets the oldest message, and with the answer 0 what it leaves there stays the oldest,
-- with any other answer the message is gone.
abbrev pub Consumes : {S : Type 0} → ℕ → MsgQ → (Msg → S → Option ((ℕ × Msg) × S)) → S → Type 0
Consumes k q f s =
    ((contents k q ≡ []) × (qconsume q f s ≡ some (0, record q { idle = 1 }, s)))
    ⊎ ((x : Msg) × (rest : List Msg) × (contents k q ≡ x ∷ rest)
        × (qconsume q f s ≡ (f x s >>=? λ (r, s'). some (1, taken q r.0 r.1, s')))
        × ((done : ℕ) (m : Msg)
            → IsValid k (taken q done m)
              × (contents k (taken q done m) ≡ (if done == 0 then m ∷ rest else rest))))

qconsume-empty :
    {S : Type 0} {k : ℕ} {q : MsgQ} (f : Msg → S → Option ((ℕ × Msg) × S)) (s : S)
    → IsValid k q
    → contents k q ≡ []
    → qconsume q f s ≡ some (0, record q { idle = 1 }, s)
unfolding qconsume
qconsume-empty {k} {q} f s v e = rw empty
  where
    none_in : qlen q ≡ 0
    none_in = omega (arith, ap length e, length-contents k q)

    empty : (q.produced == q.consumed) ≡ true
    empty = ground (arith, none_in, qlen-zero_iff v)

-- On an empty valid ring `qconsume` only sets `idle`; else the callback gets the oldest message: with its answer 0 what it
-- leaves in the slot stays the oldest, with any other answer the message is gone, and the ring is valid again.
pub qconsume_refines :
    {S : Type 0} {k : ℕ} {q : MsgQ} (f : Msg → S → Option ((ℕ × Msg) × S)) (s : S)
    → IsValid k q
    → Consumes k q f s
qconsume_refines {k} {q} f s v = go (contents k q) refl
  where
    go : (l : List Msg) → contents k q ≡ l → Consumes k q f s
    go [] e = inl (e, qconsume-empty f s v e)
    go (x ∷ rest) e = inr (
      x,
      rest,
      e,
      qconsume-some f s x rest v e,
      λ done m. (taken-IsValid done m v (contents-cons v e).0, contents-taken done m x rest v e),
    )

pub idle-IsValid : {k : ℕ} {q : MsgQ} → IsValid k q → IsValid k (record q { idle = 1 })
idle-IsValid v = record {
  small = v.small;
  mask_of = v.mask_of;
  slots = v.slots;
  produced_in = v.produced_in;
  consumed_in = v.consumed_in;
  fits = v.fits;
}

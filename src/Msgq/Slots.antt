-- ===== src/Msgq/Slots.antt =====
-- What the slots of a valid ring hold before and after each operation.
use native.Mathlib.Nat.{one-le-pow, pow-le-pow_right}
use c4l.Common.{
  ltb, inl, inr, ℕ, suc, ◌+◌, ◌-◌, ◌^◌, ◌%◌, ◌≤◌, ◌<◌, ◌≡◌, ◌≢◌, inl, inr, ap, ◌∙◌, sym, subst,
  arith, List, [], ◌∷◌, ◌++◌, Option, some, length, get_or, set, length-set, get_elem?-eq-get_or,
  ◌>>=?◌, if◌then◌else◌, ◌==◌, bit_and, slt32, sub32, add32, bit_and_mask, mod-mod_pow, Bool-cases,
  ltb,
}
use c4l.Common.{◌↔◌, false}
use c4l.Message.{Msg, zero_msg}
use c4l.Msgq.{MsgQ, qlen, qproduce, qconsume}
use c4l.Msgq.Valid.{
  IsValid, window, contents, window_cong, window_of_ne_zero, window-set_end, window-set_start,
  length-contents,
}

slots_bounds : (k : ℕ) → k ≤ 30 → (1 ≤ 2 ^ k) × (2 ^ k ≤ 2 ^ 30)
slots_bounds k h = (one-le-pow k 2 (omega arith), pow-le-pow_right {n = 2} (omega arith) h)

module _ {k : ℕ} {q : MsgQ} (v : IsValid k q) where
  -- The slot of a counter is its remainder by the number of slots.
  pub slot_of : (c : ℕ) → bit_and c q.mask ≡ c % 2 ^ k
  slot_of c = rw v.mask_of (bit_and_mask k c)

  pub slot_in : (c : ℕ) → c % 2 ^ k < length q.msgs
  slot_in c = rw v.slots (omega (arith, slots_bounds k v.small))

  pub full_test : slt32 q.mask (sub32 q.produced q.consumed) ≡ ltb (2 ^ k - 1) (qlen q)
  unfolding qlen
  full_test = rw v.mask_of (ground (arith, slots_bounds k v.small, v.fits))

-- The ring after `qproduce` has put `m` in.
abbrev pub stored : MsgQ → Msg → MsgQ
stored q m = record q {
  msgs = set q.msgs (bit_and q.produced q.mask) m;
  produced = add32 q.produced 1;
}

-- The ring after `qconsume` has got the answer `done` and the slot as `m`.
abbrev pub taken : MsgQ → ℕ → Msg → MsgQ
taken q done m =
    let q' : MsgQ = record q { msgs = set q.msgs (bit_and q.consumed q.mask) m } in
    if done == 0 then q' else record q' { consumed = add32 q.consumed 1 }

-- The message in the slot that `qproduce` fills next.
abbrev pub free_slot : MsgQ → Msg
free_slot q = get_or q.msgs (bit_and q.produced q.mask) zero_msg

pub stored-IsValid :
    {k : ℕ} {q : MsgQ} (m : Msg) → IsValid k q → qlen q < 2 ^ k → IsValid k (stored q m)
unfolding qlen
stored-IsValid {k} {q} m v room = record {
  small = v.small;
  mask_of = v.mask_of;
  slots = length-set q.msgs (bit_and q.produced q.mask) m ∙ v.slots;
  produced_in = omega arith;
  consumed_in = v.consumed_in;
  fits = omega (arith, v.produced_in, v.consumed_in, slots_bounds k v.small);
}

pub contents-stored :
    {k : ℕ} {q : MsgQ} (m : Msg)
    → IsValid k q
    → qlen q < 2 ^ k
    → contents k (stored q m) ≡ contents k q ++ m ∷ []
unfolding qlen
contents-stored {k} {q} m v room = rw longer (
    window-set_end q.msgs (2 ^ k) q.consumed (qlen q) (bit_and q.produced q.mask) m v.slots room
      (slot_of v q.produced ∙ end))
  where
    longer : sub32 (add32 q.produced 1) q.consumed ≡ suc (sub32 q.produced q.consumed)
    longer = omega (arith, v.produced_in, v.consumed_in, slots_bounds k v.small)

    wrapped : q.produced ≡ (q.consumed + sub32 q.produced q.consumed) % 2 ^ 32
    wrapped = omega (arith, v.produced_in, v.consumed_in)

    end : q.produced % 2 ^ k ≡ (q.consumed + sub32 q.produced q.consumed) % 2 ^ k
    end = ap (λ t. t % 2 ^ k) wrapped ∙ mod-mod_pow k _ (omega (arith, v.small))

pub qproduce-full :
    {S : Type 0} {k : ℕ} {q : MsgQ} (f : Msg → S → Option (Msg × S)) (s : S)
    → IsValid k q
    → qlen q ≡ 2 ^ k
    → qproduce q f s ≡ some (0, q, s)
unfolding qproduce
qproduce-full {k} {q} f s v full = rw (full_test v, full) (ground (arith, slots_bounds k v.small))

pub qproduce-room :
    {S : Type 0} {k : ℕ} {q : MsgQ} (f : Msg → S → Option (Msg × S)) (s : S)
    → IsValid k q
    → qlen q < 2 ^ k
    → qproduce q f s ≡ (f (free_slot q) s >>=? λ (m, s'). some (1, stored q m, s'))
unfolding qproduce
qproduce-room {k} {q} f s v room =
    rw
      (full_test v, below, get_elem?-eq-get_or q.msgs (bit_and q.produced q.mask) zero_msg in_range)
  where
    below : ltb (2 ^ k - 1) (qlen q) ≡ false
    below = ground (arith, slots_bounds k v.small)

    in_range : bit_and q.produced q.mask < length q.msgs
    in_range = rw (slot_of v) (slot_in v q.produced)

-- The first message of a ring that holds some, and the others.
abbrev pub first_slot : MsgQ → Msg
first_slot q = get_or q.msgs (bit_and q.consumed q.mask) zero_msg

pub qlen-zero_iff : {k : ℕ} {q : MsgQ} → IsValid k q → (q.produced ≡ q.consumed) ↔ (qlen q ≡ 0)
unfolding qlen
qlen-zero_iff v =
    (λ e. omega (arith, v.produced_in), λ e. omega (arith, v.produced_in, v.consumed_in))

pub contents-first :
    {k : ℕ} {q : MsgQ}
    → IsValid k q
    → qlen q ≢ 0
    → contents k q ≡ first_slot q ∷ window q.msgs (2 ^ k) (q.consumed + 1) (qlen q - 1)
unfolding qlen
contents-first {k} {q} v some_in =
    window_of_ne_zero q.msgs (2 ^ k) q.consumed (qlen q) some_in
    ∙ ap (λ i. get_or q.msgs i zero_msg ∷ window q.msgs (2 ^ k) (q.consumed + 1) (qlen q - 1))
        (sym (slot_of v q.consumed))

-- A ring that holds a message is not empty, and its first slot holds the first message.
pub contents-cons :
    {k : ℕ} {q : MsgQ} {x : Msg} {rest : List Msg}
    → IsValid k q
    → contents k q ≡ x ∷ rest
    → (qlen q ≢ 0)
      × (first_slot q ≡ x)
      × (window q.msgs (2 ^ k) (q.consumed + 1) (qlen q - 1) ≡ rest)
contents-cons {k} {q} {x} {rest} v e =
    (some_in, cc (contents-first v some_in), cc (contents-first v some_in))
  where
    some_in : qlen q ≢ 0
    some_in none_in = absurd (omega (arith, ap length e, length-contents k q))

pub taken-IsValid :
    {k : ℕ} {q : MsgQ} (done : ℕ) (m : Msg) → IsValid k q → qlen q ≢ 0 → IsValid k (taken q done m)
unfolding qlen
taken-IsValid {k} {q} done m v some_in =
    ground (arith, length-set q.msgs (bit_and q.consumed q.mask) m, slots_bounds k v.small)

pub contents-taken :
    {k : ℕ} {q : MsgQ} (done : ℕ) (m x : Msg) (rest : List Msg)
    → IsValid k q
    → contents k q ≡ x ∷ rest
    → contents k (taken q done m) ≡ (if done == 0 then m ∷ rest else rest)
contents-taken {k} {q} done m x rest v e = elim (Bool-cases (done == 0)) [
  | inl kept ↦ rw kept stays
  | inr dropped ↦ rw dropped goes
]
  where
    n : ℕ
    n = qlen q - 1

    left : sub32 q.produced q.consumed ≡ suc n
    left = unfold qlen in omega (arith, (contents-cons v e).0)

    fewer : sub32 q.produced (add32 q.consumed 1) ≡ n
    fewer = unfold qlen in omega (arith, (contents-cons v e).0, v.produced_in, v.consumed_in)

    after : window q.msgs (2 ^ k) (q.consumed + 1) n ≡ rest
    after = (contents-cons v e).2

    wrapped : add32 q.consumed 1 % 2 ^ k ≡ (q.consumed + 1) % 2 ^ k
    wrapped = mod-mod_pow k (q.consumed + 1) (omega (arith, v.small))

    put_back : List Msg
    put_back = set q.msgs (bit_and q.consumed q.mask) m

    written :
        window put_back (2 ^ k) q.consumed (suc n) ≡ m ∷ window q.msgs (2 ^ k) (q.consumed + 1) n
    written =
        subst
          (λ i.
            window (set q.msgs i m) (2 ^ k) q.consumed (suc n)
            ≡ m ∷ window q.msgs (2 ^ k) (q.consumed + 1) n)
          (sym (slot_of v q.consumed))
          (window-set_start q.msgs (2 ^ k) q.consumed n m v.slots (omega (arith, v.fits, left)))

    stays : window put_back (2 ^ k) q.consumed (sub32 q.produced q.consumed) ≡ m ∷ rest
    stays = ap (window put_back (2 ^ k) q.consumed) left ∙ written ∙ ap (◌∷◌ m) after

    goes :
        window put_back (2 ^ k) (add32 q.consumed 1) (sub32 q.produced (add32 q.consumed 1)) ≡ rest
    goes =
        ap (window put_back (2 ^ k) (add32 q.consumed 1)) fewer
        ∙ window_cong put_back (2 ^ k) (add32 q.consumed 1) (q.consumed + 1) n wrapped
        ∙ cc written
        ∙ after

pub qconsume-some :
    {S : Type 0} {k : ℕ} {q : MsgQ} (f : Msg → S → Option ((ℕ × Msg) × S)) (s : S) (x : Msg)
    (rest : List Msg)
    → IsValid k q
    → contents k q ≡ x ∷ rest
    → qconsume q f s ≡ (f x s >>=? λ (r, s'). some (1, taken q r.0 r.1, s'))
unfolding qconsume
qconsume-some {k} {q} f s x rest v e = rw (
  not_empty,
  get_elem?-eq-get_or q.msgs (bit_and q.consumed q.mask) zero_msg in_range,
  (contents-cons v e).1,
)
  where
    not_empty : (q.produced == q.consumed) ≡ false
    not_empty = ground (arith, (contents-cons v e).0, qlen-zero_iff v)

    in_range : bit_and q.consumed q.mask < length q.msgs
    in_range = rw (slot_of v) (slot_in v q.consumed)

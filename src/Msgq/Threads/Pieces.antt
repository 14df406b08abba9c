-- ===== src/Msgq/Threads/Pieces.antt =====
-- What the steps of the writer and the reader do to the messages of a valid ring.
use native.Mathlib.Nat.{one-le-pow, pow-le-pow_right}
use c4l.Common.{
  some, get_elem?, get_elem?-eq-get_or, slt32, ltb, ◌==◌, true, false, ℕ, zero, suc, ◌+◌, ◌-◌, ◌^◌,
  ◌%◌, ◌≤◌, ◌<◌, ◌≡◌, ◌≢◌, refl, ◌∙◌, ap, sym, subst, arith, List, [], ◌∷◌, ◌++◌, length, get_or,
  set, length-set, get_or-set_self, get_or-set_ne, sub32, add32, bit_and, mod-mod_pow,
}
use c4l.Message.{Msg, zero_msg}
use c4l.Msgq.{MsgQ, qlen}
use c4l.Msgq.Valid.{IsValid, contents, window-set_ne, add-mod-ne, length-contents}
use c4l.Msgq.Slots.{
  full_test, qlen-zero_iff, contents-first, slot_of, slot_in, free_slot, stored, taken,
  stored-IsValid, contents-stored, taken-IsValid, contents-taken, contents-cons,
}
use c4l.Msgq.Threads.{fill, publish, left_in_slot, count_read}

no_messages : (l : List Msg) → length l ≡ 0 → l ≡ []
no_messages [] e = refl
no_messages (x ∷ l) e = absurd (omega (arith, e))

-- Writing to a slot what it holds changes nothing.
set_same : (l : List Msg) (i : ℕ) (m : Msg) → get_or l i zero_msg ≡ m → set l i m ≡ l
set_same [] i m e = refl
set_same (x ∷ l) zero m e = ap (λ y. y ∷ l) (sym e)
set_same (x ∷ l) (suc i) m e = ap (◌∷◌ x) (set_same l i m e)

module _ {k : ℕ} {q : MsgQ} (v : IsValid k q) where
  bounds : (1 ≤ 2 ^ k) × (2 ^ k ≤ 2 ^ 30)
  bounds = (one-le-pow k 2 (omega arith), pow-le-pow_right {n = 2} (omega arith) v.small)

  pub room_of_test : slt32 q.mask (sub32 q.produced q.consumed) ≡ false → qlen q < 2 ^ k
  room_of_test e = below (sym (full_test v) ∙ e)
    where
      below : ltb (2 ^ k - 1) (qlen q) ≡ false → qlen q < 2 ^ k
      below h = ground (arith, bounds)

  pub first_of_test :
      (q.produced == q.consumed) ≡ false → (x : Msg) × (rest : List Msg) × (contents k q ≡ x ∷ rest)
  first_of_test e = (_, _, contents-first v (some_in e))
    where
      some_in : (q.produced == q.consumed) ≡ false → qlen q ≢ 0
      some_in h none_in = ground (arith, (qlen-zero_iff v).1 none_in)

  pub empty_of_test : (q.produced == q.consumed) ≡ true → contents k q ≡ []
  empty_of_test e = no_messages (contents k q) (length-contents k q ∙ none_in e)
    where
      none_in : (q.produced == q.consumed) ≡ true → qlen q ≡ 0
      none_in h = (qlen-zero_iff v).0 (ground arith)

  -- The slot behind the messages is none of theirs.
  behind : (j : ℕ) → j < qlen q → qlen q < 2 ^ k → q.produced % 2 ^ k ≢ (q.consumed + j) % 2 ^ k
  unfolding qlen
  behind j before room e =
      add-mod-ne (2 ^ k) (q.consumed + j) (n - j) (omega arith) (omega arith)
        (ap (λ t. t % 2 ^ k) (omega arith) ∙ sym end ∙ e)
    where
      n : ℕ
      n = sub32 q.produced q.consumed

      wrapped : q.produced ≡ (q.consumed + n) % 2 ^ 32
      wrapped = omega (arith, v.produced_in, v.consumed_in)

      end : q.produced % 2 ^ k ≡ (q.consumed + n) % 2 ^ k
      end = ap (λ t. t % 2 ^ k) wrapped ∙ mod-mod_pow k _ (omega (arith, v.small))

  pub fill-IsValid : (m : Msg) → IsValid k (fill q m)
  fill-IsValid m = record {
    small = v.small;
    mask_of = v.mask_of;
    slots = length-set q.msgs (bit_and q.produced q.mask) m ∙ v.slots;
    produced_in = v.produced_in;
    consumed_in = v.consumed_in;
    fits = v.fits;
  }

  pub contents-fill : (m : Msg) → qlen q < 2 ^ k → contents k (fill q m) ≡ contents k q
  unfolding qlen
  contents-fill m room =
      window-set_ne q.msgs (2 ^ k) q.consumed (qlen q) (bit_and q.produced q.mask) m
        (λ j before e. behind j before room (sym (slot_of v q.produced) ∙ e))

  pub free_slot-fill : (m : Msg) → free_slot (fill q m) ≡ m
  free_slot-fill m =
      get_or-set_self q.msgs (bit_and q.produced q.mask) m zero_msg
        (subst (λ i. i < length q.msgs) (sym (slot_of v q.produced)) (slot_in v q.produced))

  publish_filled : (m : Msg) → free_slot q ≡ m → stored q m ≡ publish q
  publish_filled m e =
      ap (λ (l : List Msg). record q { msgs = l; produced = add32 q.produced 1 })
        (set_same q.msgs (bit_and q.produced q.mask) m e)

  pub publish-IsValid : (m : Msg) → free_slot q ≡ m → qlen q < 2 ^ k → IsValid k (publish q)
  publish-IsValid m e room = subst (IsValid k) (publish_filled m e) (stored-IsValid m v room)

  pub contents-publish :
      (m : Msg) → free_slot q ≡ m → qlen q < 2 ^ k → contents k (publish q) ≡ contents k q ++ m ∷ []
  contents-publish m e room = ap (contents k) (sym (publish_filled m e)) ∙ contents-stored m v room

  -- The reader's slot is not the one that the writer fills.
  pub slots_apart :
      qlen q ≢ 0 → qlen q < 2 ^ k → bit_and q.produced q.mask ≢ bit_and q.consumed q.mask
  slots_apart some_in room e = behind 0 (omega arith) room (
      sym (slot_of v q.produced)
      ∙ e
      ∙ slot_of v q.consumed
      ∙ ap (λ (n : ℕ). n % 2 ^ k) (omega arith))

  pub free_slot-left_in_slot :
      (m : Msg) → qlen q ≢ 0 → qlen q < 2 ^ k → free_slot (left_in_slot q m) ≡ free_slot q
  free_slot-left_in_slot m some_in room =
      get_or-set_ne q.msgs m zero_msg (λ e. slots_apart some_in room (sym e))

  module _ {x : Msg} {rest : List Msg} (holds : contents k q ≡ x ∷ rest) where
    pub slot_holds : get_elem? q.msgs (bit_and q.consumed q.mask) ≡ some x
    slot_holds =
        get_elem?-eq-get_or q.msgs (bit_and q.consumed q.mask) zero_msg
          (subst (λ i. i < length q.msgs) (sym (slot_of v q.consumed)) (slot_in v q.consumed))
        ∙ ap some (contents-cons v holds).1

    pub left_in_slot-IsValid : (m : Msg) → IsValid k (left_in_slot q m)
    left_in_slot-IsValid m = taken-IsValid 0 m v (contents-cons v holds).0

    pub contents-left_in_slot : (m : Msg) → contents k (left_in_slot q m) ≡ m ∷ rest
    contents-left_in_slot m = contents-taken 0 m x rest v holds

    taken-count_read : taken q 1 x ≡ count_read q
    taken-count_read =
        ap (λ (l : List Msg). record q { msgs = l; consumed = add32 q.consumed 1 })
          (set_same q.msgs (bit_and q.consumed q.mask) x (contents-cons v holds).1)

    pub count_read-IsValid : IsValid k (count_read q)
    count_read-IsValid =
        subst (IsValid k) taken-count_read (taken-IsValid 1 x v (contents-cons v holds).0)

    pub contents-count_read : contents k (count_read q) ≡ rest
    contents-count_read = ap (contents k) (sym taken-count_read) ∙ contents-taken 1 x x rest v holds

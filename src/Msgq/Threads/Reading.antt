-- ===== src/Msgq/Threads/Reading.antt =====
-- Each step of the reader keeps what holds while the two take turns.
use mathlib.Core.List.{map-append, append_assoc}
use c4l.Common.{
  ℕ, ◌^◌, ◌<◌, ◌≡◌, inl, inr, refl, ◌∙◌, ap, sym, subst, arith, some, List, [], ◌∷◌, ◌++◌, map,
  length, Bool-cases, ◌==◌,
}
use c4l.Message.{Msg}
use c4l.Msgq.{MsgQ, qlen}
use c4l.Msgq.Valid.{IsValid, contents, length-contents}
use c4l.Msgq.Slots.{contents-cons}
use c4l.Msgq.Refine.{idle-IsValid}
use c4l.Msgq.Threads.{
  Writer, resting, allowed, filled, published, restarting, Reader, stopped, looking, sure, called,
  Threads, left_in_slot, count_read, call_back, read_step,
}
use c4l.Msgq.Threads.Pieces.{
  first_of_test, empty_of_test, slot_holds, free_slot-left_in_slot, left_in_slot-IsValid,
  contents-left_in_slot, count_read-IsValid, contents-count_read,
}
use c4l.Msgq.Threads.Consistent.{HasSlot, HasFirst, Signals, Consistent, running}

module _ {B : Type 0} (key : Msg → B) (k : ℕ) (before : List Msg) (consume : Msg → ℕ × Msg)
    (keeps : (m : Msg) → key (consume m).1 ≡ key m) where
  -- What is known of the reader at its place.
  first_at :
      {t : Threads} (r : Reader)
      → t.reader ≡ r
      → Consistent key k before t
      → HasFirst key (contents k t.q) r
  first_at {t} r e c = subst (HasFirst key (contents k t.q)) e c.has_first

  seen_by :
      {t : Threads} (r : Reader)
      → t.reader ≡ r
      → Consistent key k before t
      → Signals t.q.idle (contents k t.q) t.writer r
  seen_by {t} r e c =
      subst (λ (r : Reader). Signals t.q.idle (contents k t.q) t.writer r) e c.signals

  abbrev pub Goes : Reader → Threads → Type 0
  Goes r t = (t' : Threads) × (read_step consume r t ≡ some t') × Consistent key k before t'

  slot-idle : (q : MsgQ) (w : Writer) → HasSlot k q w → HasSlot k (record q { idle = 1 }) w
  unfolding qlen
  slot-idle q resting h = tt
  slot-idle q (allowed m) h = h
  slot-idle q (filled m) h = h
  slot-idle q published h = tt
  slot-idle q restarting h = tt

  look : (t : Threads) → t.reader ≡ looking → Consistent key k before t → Goes looking t
  unfolding read_step
  look t e c = elim (Bool-cases (t.q.produced == t.q.consumed)) [
    | inl empty ↦ (
      record t { q = record t.q { idle = 1 }; reader = stopped },
      rw empty,
      record {
        valid = idle-IsValid c.valid;
        has_slot = slot-idle t.q t.writer c.has_slot;
        has_first = tt;
        signals = record {
          stops = λ h. (λ i. omega (arith, i), inl (empty_of_test c.valid empty));
          idles = λ i. tt;
          restarts = λ f i. omega (arith, i);
        };
        in_order = c.in_order;
      },
    )
    | inr some_in ↦ (
      record t { reader = sure },
      rw some_in,
      record {
        valid = c.valid;
        has_slot = c.has_slot;
        has_first = first_of_test c.valid some_in;
        signals = running (λ f. f) (λ f. f) (seen_by looking e c);
        in_order = c.in_order;
      },
    )
  ]

  slot-left_in_slot :
      {q : MsgQ} {x : Msg} {rest : List Msg} (w : Writer) (m : Msg)
      → IsValid k q
      → contents k q ≡ x ∷ rest
      → HasSlot k q w
      → HasSlot k (left_in_slot q m) w
  unfolding qlen
  slot-left_in_slot resting m v e h = tt
  slot-left_in_slot (allowed y) m v e h = h
  slot-left_in_slot (filled y) m v e (room, slot) =
      (room, free_slot-left_in_slot v m (contents-cons v e).0 room ∙ slot)
  slot-left_in_slot published m v e h = tt
  slot-left_in_slot restarting m v e h = tt

  call : (t : Threads) → t.reader ≡ sure → Consistent key k before t → Goes sure t
  unfolding read_step call_back
  call t e c =
      let (x, rest, holds) = first_at sure e c in
      let m : Msg = (consume x).1 in
      let now : contents k (left_in_slot t.q m) ≡ m ∷ rest =
        contents-left_in_slot c.valid holds m in
      (
        record t { q = left_in_slot t.q m; reader = called (consume x).0 x },
        rw (slot_holds c.valid holds),
        record {
          valid = left_in_slot-IsValid c.valid holds m;
          has_slot = slot-left_in_slot t.writer m c.valid holds c.has_slot;
          has_first = (m, rest, now, keeps x);
          signals = running (λ f. f) (λ f. f) (seen_by sure e c);
          in_order =
              c.in_order
              ∙ ap (λ l. map key (t.given ++ l)) holds
              ∙ map-append key t.given (x ∷ rest)
              ∙ ap (λ y. map key t.given ++ y ∷ map key rest) (sym (keeps x))
              ∙ sym (map-append key t.given (m ∷ rest))
              ∙ ap (λ l. map key (t.given ++ l)) (sym now);
        },
      )

  slot-count_read :
      {q : MsgQ} {x : Msg} {rest : List Msg} (w : Writer)
      → IsValid k q
      → contents k q ≡ x ∷ rest
      → HasSlot k q w
      → HasSlot k (count_read q) w
  slot-count_read {q} {x} {rest} w v e h = go w h
    where
      shorter : qlen q < 2 ^ k → qlen (count_read q) < 2 ^ k
      shorter room = omega (
        arith,
        length-contents k q,
        length-contents k (count_read q),
        ap length e,
        ap length (contents-count_read v e),
      )

      go : (w : Writer) → HasSlot k q w → HasSlot k (count_read q) w
      go resting h = tt
      go (allowed y) h = shorter h
      go (filled y) (room, slot) = (shorter room, slot)
      go published h = tt
      go restarting h = tt

  done :
      (answer : ℕ) (x : Msg) (t : Threads)
      → t.reader ≡ called answer x
      → Consistent key k before t
      → Goes (called answer x) t
  unfolding read_step
  done answer x t e c =
      let (m, rest, holds, same) = first_at (called answer x) e c in
      let now : contents k (count_read t.q) ≡ rest = contents-count_read c.valid holds in
      elim (Bool-cases (answer == 0)) [
        | inl kept ↦ (
          record t { reader = looking },
          rw kept,
          record {
            valid = c.valid;
            has_slot = c.has_slot;
            has_first = tt;
            signals = running (λ f. f) (λ f. f) (seen_by (called answer x) e c);
            in_order = c.in_order;
          },
        )
        | inr over ↦ (
          record t { q = count_read t.q; reader = looking; given = t.given ++ x ∷ [] },
          rw over,
          record {
            valid = count_read-IsValid c.valid holds;
            has_slot = slot-count_read t.writer c.valid holds c.has_slot;
            has_first = tt;
            signals = running (λ f. f) (λ f. f) (seen_by (called answer x) e c);
            in_order =
                c.in_order
                ∙ ap (λ l. map key (t.given ++ l)) holds
                ∙ map-append key t.given (m ∷ rest)
                ∙ ap (λ y. map key t.given ++ y ∷ map key rest) same
                ∙ sym (map-append key t.given (x ∷ rest))
                ∙ ap (map key) (sym (append_assoc t.given (x ∷ []) rest))
                ∙ ap (λ l. map key ((t.given ++ x ∷ []) ++ l)) (sym now);
          },
        )
      ]

  pub read_step-Consistent :
      (r : Reader) (t : Threads) → t.reader ≡ r → Consistent key k before t → Goes r t
  unfolding read_step
  read_step-Consistent stopped t e c = (t, refl, c)
  read_step-Consistent looking t e c = look t e c
  read_step-Consistent sure t e c = call t e c
  read_step-Consistent (called answer x) t e c = done answer x t e c

-- ===== src/Msgq/Threads/Writing.antt =====
-- Each step of the writer keeps what holds while the two take turns.
use native.Mathlib.Decide.{ℕ_discrete}
use mathlib.Core.List.{map-append, append_assoc}
use c4l.Common.{
  true, ℕ, ◌≡◌, ◌≢◌, inl, inr, refl, ◌∙◌, ap, sym, subst, arith, List, [], ◌∷◌, ◌++◌, map,
  Bool-cases, ◌==◌, false, slt32, sub32,
}
use c4l.Message.{Msg}
use c4l.Msgq.{qlen}
use c4l.Msgq.Valid.{contents}
use c4l.Msgq.Threads.{
  Writer, resting, allowed, filled, published, restarting, Reader, stopped, looking, sure, called,
  Threads, fill, publish, write_step,
}
use c4l.Msgq.Threads.Pieces.{
  room_of_test, fill-IsValid, contents-fill, free_slot-fill, publish-IsValid, contents-publish,
}
use c4l.Msgq.Threads.Consistent.{HasSlot, HasFirst, Signals, Consistent, same_list, unstarted}

module _ {B : Type 0} (key : Msg → B) (k : ℕ) (before : List Msg) where
  -- What is known of the writer or the reader at its place.
  slot_at : {t : Threads} (w : Writer) → t.writer ≡ w → Consistent key k before t → HasSlot k t.q w
  slot_at {t} w e c = subst (HasSlot k t.q) e c.has_slot

  Signals-writer :
      {t : Threads} (w : Writer)
      → t.writer ≡ w
      → Consistent key k before t
      → Signals t.q.idle (contents k t.q) w t.reader
  Signals-writer {t} w e c =
      subst (λ (w : Writer). Signals t.q.idle (contents k t.q) w t.reader) e c.signals

  test_room :
      (m : Msg) (t : Threads)
      → t.writer ≡ resting
      → Consistent key k before t
      → Consistent key k before (write_step resting m t)
  unfolding write_step
  test_room m t e c = elim (Bool-cases (slt32 t.q.mask (sub32 t.q.produced t.q.consumed))) [
    | inl full ↦ rw full c
    | inr room ↦ rw room (record {
      valid = c.valid;
      has_slot = room_of_test c.valid room;
      has_first = c.has_first;
      signals = unstarted (λ f. f) (λ f. f) (Signals-writer resting e c);
      in_order = c.in_order;
    })
  ]

  fill_slot :
      (x m : Msg) (t : Threads)
      → t.writer ≡ allowed x
      → Consistent key k before t
      → Consistent key k before (write_step (allowed x) m t)
  unfolding write_step qlen
  fill_slot x m t e c =
      let room = slot_at (allowed x) e c in
      let same : contents k (fill t.q x) ≡ contents k t.q = contents-fill c.valid x room in
      record {
        valid = fill-IsValid c.valid x;
        has_slot = (room, free_slot-fill c.valid x);
        has_first = subst (λ l. HasFirst key l t.reader) (sym same) c.has_first;
        signals = same_list same (unstarted (λ f. f) (λ f. f) (Signals-writer (allowed x) e c));
        in_order = c.in_order ∙ ap (λ l. map key (t.given ++ l)) (sym same);
      }

  longer-HasFirst :
      (r : Reader) (l : List Msg) (m : Msg) → HasFirst key l r → HasFirst key (l ++ m ∷ []) r
  longer-HasFirst stopped l m h = tt
  longer-HasFirst looking l m h = tt
  longer-HasFirst sure l m (x, rest, e) = (x, rest ++ m ∷ [], ap (λ l. l ++ m ∷ []) e)
  longer-HasFirst (called answer y) l m (x, rest, e, same) =
      (x, rest ++ m ∷ [], ap (λ l. l ++ m ∷ []) e, same)

  count_message :
      (x m : Msg) (t : Threads)
      → t.writer ≡ filled x
      → Consistent key k before t
      → Consistent key k before (write_step (filled x) m t)
  unfolding write_step
  count_message x m t e c =
      let (room, slot) = slot_at (filled x) e c in
      let longer : contents k (publish t.q) ≡ contents k t.q ++ x ∷ [] =
        contents-publish c.valid x slot room in
      let s = Signals-writer (filled x) e c in
      record {
        valid = publish-IsValid c.valid x slot room;
        has_slot = tt;
        has_first =
            subst (λ l. HasFirst key l t.reader) (sym longer)
              (longer-HasFirst t.reader (contents k t.q) x c.has_first);
        signals = record {
          stops = λ h. ((s.stops h).0, inr tt);
          idles = s.idles;
          restarts = λ f. absurd f;
        };
        in_order =
            ap (map key) (sym (append_assoc before t.accepted (x ∷ [])))
            ∙ map-append key (before ++ t.accepted) (x ∷ [])
            ∙ ap (λ l. l ++ key x ∷ []) c.in_order
            ∙ sym (map-append key (t.given ++ contents k t.q) (x ∷ []))
            ∙ ap (map key) (append_assoc t.given (contents k t.q) (x ∷ []))
            ∙ ap (λ l. map key (t.given ++ l)) (sym longer);
      }

  test_idle :
      (m : Msg) (t : Threads)
      → t.writer ≡ published
      → Consistent key k before t
      → Consistent key k before (write_step published m t)
  unfolding write_step
  test_idle m t e c =
      let s = Signals-writer published e c in
      elim (ℕ_discrete t.q.idle 0) [
        | yes busy ↦ rw (zero busy) (record {
          valid = c.valid;
          has_slot = tt;
          has_first = c.has_first;
          signals = record {
            stops = λ h. absurd ((s.stops h).0 busy);
            idles = s.idles;
            restarts = λ f. absurd f;
          };
          in_order = c.in_order;
        })
        | no idle ↦ rw (not_zero idle) (record {
          valid = c.valid;
          has_slot = tt;
          has_first = c.has_first;
          signals = record {
            stops = λ h. ((s.stops h).0, inr tt);
            idles = s.idles;
            restarts = λ f. idle;
          };
          in_order = c.in_order;
        })
      ]
    where
      zero : t.q.idle ≡ 0 → (t.q.idle == 0) ≡ true
      zero h = ground arith

      not_zero : t.q.idle ≢ 0 → (t.q.idle == 0) ≡ false
      not_zero h = ground arith

  start_reader :
      (m : Msg) (t : Threads)
      → t.writer ≡ restarting
      → Consistent key k before t
      → Consistent key k before (write_step restarting m t)
  unfolding write_step
  start_reader m t e c = record {
    valid = record {
      small = c.valid.small;
      mask_of = c.valid.mask_of;
      slots = c.valid.slots;
      produced_in = c.valid.produced_in;
      consumed_in = c.valid.consumed_in;
      fits = c.valid.fits;
    };
    has_slot = tt;
    has_first = tt;
    signals = record {
      stops = λ f. absurd f;
      idles = λ h. absurd (h refl);
      restarts = λ f. absurd f;
    };
    in_order = c.in_order;
  }

  pub write_step-Consistent :
      (w : Writer) (m : Msg) (t : Threads)
      → t.writer ≡ w
      → Consistent key k before t
      → Consistent key k before (write_step w m t)
  write_step-Consistent resting m t = test_room m t
  write_step-Consistent (allowed x) m t = fill_slot x m t
  write_step-Consistent (filled x) m t = count_message x m t
  write_step-Consistent published m t = test_idle m t
  write_step-Consistent restarting m t = start_reader m t

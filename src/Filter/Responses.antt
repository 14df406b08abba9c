-- ===== src/Filter/Responses.antt =====
-- The configuration of responses loses no address, and frees none twice.
use c4l.Common.{
  ℕ, zero, suc, ◌+◌, ◌≡◌, refl, ◌∙◌, ap, arith, Option, none, some, List, [], ◌∷◌, get_elem?, set,
}
use c4l.Filter.{Entry, MsgFilter, with_response, no_response, config_rtr, unconfig_rtr}
use c4l.Filter.Memory.{count, responses, count-with_response, Owns}

-- How often an address is the one of an entry.
abbrev points : ℕ → Entry → ℕ
points x e = count x (with_response e.rtr_response [])

same_entry : {e y : Entry} → ◌≡◌ {A = Option Entry} (some y) (some e) → y ≡ e
same_entry h = cc

none_not_some : {e : Entry} → ¬ (◌≡◌ {A = Option Entry} none (some e))
none_not_some h = cc

-- One entry is changed.
count-set :
    (x : ℕ) (es : List Entry) (i : ℕ) (e e' : Entry)
    → get_elem? es i ≡ some e
    → count x (responses (set es i e')) + points x e ≡ count x (responses es) + points x e'
unfolding responses
count-set x [] i e e' h = absurd (none_not_some h)
count-set x (y ∷ es) zero e e' h = omega (
  arith,
  ap (points x) (same_entry h),
  count-with_response x y.rtr_response (responses es),
  count-with_response x e'.rtr_response (responses es),
)
count-set x (y ∷ es) (suc i) e e' h = omega (
  arith,
  count-with_response x y.rtr_response (responses es),
  count-with_response x y.rtr_response (responses (set es i e')),
  count-set x es i e e' h,
)

count-cons : (x p : ℕ) (l : List ℕ) → count x (p ∷ l) ≡ count x (p ∷ []) + count x l
unfolding count
count-cons x p l = omega arith

count-none : (x : ℕ) → count x [] ≡ 0
unfolding count
count-none x = refl

points-none : (x : ℕ) (e : Entry) → e.rtr_response ≡ none → points x e ≡ 0
points-none x e it = ap (λ o. count x (with_response o [])) it ∙ count-none x

-- If each address was given as often as it was freed and is a response, then it is so after a response was configured for an
-- identifier that had none, and after the response of any identifier was removed; the answer is 1.
pub rtr-Owns :
    (f : MsgFilter) (i : ℕ) (e : Entry) (p : ℕ)
    → Owns f
    → get_elem? f.filter i ≡ some e
    → (e.rtr_response ≡ none
        → (f' : MsgFilter) × (config_rtr i (some p) f ≡ some (1, f')) × Owns f')
      × ((f' : MsgFilter) × (unconfig_rtr i f ≡ some (1, f')) × Owns f')
unfolding config_rtr unconfig_rtr
rtr-Owns f i e p owns here = (λ free. configured free, removed)
  where
    e' : Entry
    e' = record e { rtr_response = some p }

    configured :
        e.rtr_response ≡ none
        → (f' : MsgFilter) × (config_rtr i (some p) f ≡ some (1, f')) × Owns f'
    configured free = (
      record f { filter = set f.filter i e'; given = p ∷ f.given },
      rw here refl,
      λ x. omega (
        arith,
        owns x,
        count-cons x p f.given,
        count-set x f.filter i e e' here,
        points-none x e free,
      ),
    )

    removed : (f' : MsgFilter) × (unconfig_rtr i f ≡ some (1, f')) × Owns f'
    removed = (
      record f {
        filter = set f.filter i (no_response e);
        freed = with_response e.rtr_response f.freed;
      },
      rw here refl,
      λ x. omega (
        arith,
        owns x,
        count-with_response x e.rtr_response f.freed,
        count-set x f.filter i e (no_response e) here,
        points-none x (no_response e) refl,
      ),
    )

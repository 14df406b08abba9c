-- ===== src/Filter/Memory.antt =====
-- The cleanup of the filter frees each response once.
use c4l.Common.{
  ℕ, ◌+◌, ◌≡◌, refl, ◌∙◌, sym, arith, Option, none, some, List, [], ◌∷◌, map, ◌==◌, if◌then◌else◌,
}
use c4l.Filter.{Entry, MsgFilter, with_response, no_response, free_responses, filter_cleanup}

-- How often an address is in a list.
unfoldable pub count : ℕ → List ℕ → ℕ
count p [] = 0
count p (x ∷ l) = (if x == p then 1 else 0) + count p l

-- The addresses of the responses.
unfoldable pub responses : List Entry → List ℕ
responses [] = []
responses (e ∷ es) = with_response e.rtr_response (responses es)

-- Each address was given as often as it was freed and is a response.
abbrev pub Owns : MsgFilter → Type 0
Owns f = (p : ℕ) → count p f.given ≡ count p f.freed + count p (responses f.filter)

pub count-with_response :
    (x : ℕ) (o : Option ℕ) (l : List ℕ)
    → count x (with_response o l) ≡ count x (with_response o []) + count x l
unfolding count
count-with_response x none l = omega arith
count-with_response x (some p) l = omega arith

count-free_responses :
    (x : ℕ) (es : List Entry) (freed : List ℕ)
    → count x (free_responses es freed) ≡ count x freed + count x (responses es)
unfolding free_responses responses
count-free_responses x [] freed = unfold count in omega arith
count-free_responses x (e ∷ es) freed = omega (
  arith,
  count-free_responses x es (with_response e.rtr_response freed),
  count-with_response x e.rtr_response freed,
  count-with_response x e.rtr_response (responses es),
)

-- If each address was given as often as it was freed and is a response, then after the cleanup no entry has a response, and
-- each address was freed as often as it was given.
pub filter_cleanup_lem :
    (f : MsgFilter)
    → Owns f
    → (responses (filter_cleanup f).filter ≡ [])
      × ((p : ℕ) → count p (filter_cleanup f).freed ≡ count p f.given)
unfolding filter_cleanup responses
filter_cleanup_lem f owns =
    (cleared f.filter, λ p. count-free_responses p f.filter f.freed ∙ sym (owns p))
  where
    cleared : (es : List Entry) → responses (map no_response es) ≡ []
    cleared [] = refl
    cleared (e ∷ es) = cleared es

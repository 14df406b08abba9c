-- ===== src/Examples/Filtering.antt =====
-- The filter with two identifiers, one of which has a response.
use c4l.Common.{arith, ℕ, ◌≡◌, refl, Option, none, some, [], ◌∷◌}
use c4l.Filter.{Entry, MsgFilter, config_rtr, unconfig_rtr, filter_cleanup}
use c4l.Filter.Memory.{count, responses, Owns, filter_cleanup_lem}
use c4l.Filter.Responses.{rtr-Owns}

abbrev entry : Option ℕ → Entry
entry o = record { enable = 1; timestamp = 0; signal = 0; rtr_response = o }

abbrev one_response : MsgFilter
one_response = record {
  use_it = 1;
  signo = 0 ∷ 0 ∷ 0 ∷ [];
  filter = entry (some 7) ∷ entry none ∷ [];
  given = 7 ∷ 5 ∷ [];
  freed = 5 ∷ [];
}

one_response-Owns : Owns one_response
unfolding count responses
one_response-Owns p = omega arith

filter_cleanup_lem_example :
    (responses (filter_cleanup one_response).filter ≡ [])
    × ((p : ℕ) → count p (filter_cleanup one_response).freed ≡ count p one_response.given)
filter_cleanup_lem_example = filter_cleanup_lem one_response one_response-Owns

rtr-Owns_example :
    (◌≡◌ {A = Option ℕ} none none
      → (f' : MsgFilter) × (config_rtr 1 (some 9) one_response ≡ some (1, f')) × Owns f')
    × ((f' : MsgFilter) × (unconfig_rtr 1 one_response ≡ some (1, f')) × Owns f')
rtr-Owns_example = rtr-Owns one_response 1 (entry none) 9 one_response-Owns refl

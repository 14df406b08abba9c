-- ===== src/Trm/Cmdline/Values.antt =====
-- The functions for several parameters return as many values as they were asked for.
use c4l.Common.{
  ℕ, zero, suc, ◌+◌, ◌-◌, ◌≤◌, ◌<◌, ◌≡◌, ◌⊎◌, inl, inr, refl, ◌∙◌, sym, subst, arith, Option, none,
  some, List, [], ◌∷◌, Bool, true, false, not, ◌&&◌, ◌==◌, ltb, leb, if◌then◌else◌, length, drop,
  ◌>>=?◌, Bool-cases,
}
use c4l.Trm.Cmdline.{Str, collect, get_opts, below_max}

-- `n` values more than `used` are within the maximum, if there is one.
abbrev IsWithin : Option ℕ → ℕ → ℕ → Type 0
IsWithin none used n = Unit {0}
IsWithin (some cmax) used n = (n ≡ 0) ⊎ (used + n ≤ cmax)

length-drop : (n : ℕ) (xs : List Str) → length (drop n xs) ≡ length xs - n
length-drop zero xs = omega arith
length-drop (suc n) [] = omega arith
length-drop (suc n) (x ∷ xs) = omega (arith, length-drop n xs)

none-IsWithin : (cmax : Option ℕ) (used : ℕ) → IsWithin cmax used 0
none-IsWithin none used = tt
none-IsWithin (some cmax) used = inl refl

one-IsWithin :
    (cmax : Option ℕ) (used n : ℕ)
    → below_max cmax used ≡ true
    → IsWithin cmax (used + 1) n
    → IsWithin cmax used (suc n)
one-IsWithin none used n below h = tt
one-IsWithin (some cmax) used n below (inl e) = inr (ground arith)
one-IsWithin (some cmax) used n below (inr le) = inr (omega arith)

module _ {V : Type 0} (memory : ℕ → Bool) (cmax : Option ℕ)
    (take_arg : ℕ → Str → Option (Option V)) where
  -- What the loop collects from the parameters `args`.
  abbrev Collects : ℕ → List Str → List V → Type 0
  Collects used args vs = (length vs ≤ length args) × IsWithin cmax used (length vs)

  nothing_collected :
      (used : ℕ) (args : List Str) (vs : List V) → some [] ≡ some vs → Collects used args vs
  nothing_collected used args [] e = (omega arith, none-IsWithin cmax used)
  nothing_collected used args (v ∷ vs) e = cc

  -- One more value in front of the `rest`.
  one_more :
      (used : ℕ) (arg : Str) (args : List Str) (v : V) (ws vs : List V)
      → below_max cmax used ≡ true
      → Collects (used + 1) args ws
      → some (v ∷ ws) ≡ some vs
      → Collects used (arg ∷ args) vs
  one_more used arg args v ws vs below (few, within) e =
      subst (λ (l : List V). Collects used (arg ∷ args) l) (same e)
        (omega arith, one-IsWithin cmax used (length ws) below within)
    where
      same : some (v ∷ ws) ≡ some vs → v ∷ ws ≡ vs
      same h = cc

  -- The end of a round of the loop, with the result `rest` of the others.
  round_end :
      (used : ℕ) (arg : Str) (args : List Str) (vs : List V) (stop : Bool)
      (taken : Option (Option V)) (rest : Option (List V))
      → below_max cmax used ≡ true
      → ((ws : List V) → rest ≡ some ws → Collects (used + 1) args ws)
      → (if stop
          then none
          else taken >>=? λ o. elim o [ none ↦ some [] | some v ↦ rest >>=? λ ws. some (v ∷ ws) ])
        ≡ some vs
      → Collects used (arg ∷ args) vs
  round_end used arg args vs true taken rest below others e = cc
  round_end used arg args vs false none rest below others e = cc
  round_end used arg args vs false (some none) rest below others e =
      nothing_collected used (arg ∷ args) vs e
  round_end used arg args vs false (some (some v)) none below others e = cc
  round_end used arg args vs false (some (some v)) (some ws) below others e =
      one_more used arg args v ws vs below (others ws refl) e

  collect_lem :
      (args : List Str) (used alloced : ℕ) (vs : List V)
      → collect memory cmax take_arg used alloced args ≡ some vs
      → Collects used args vs
  unfolding collect
  collect_lem [] used alloced vs e = nothing_collected used [] vs e
  collect_lem (arg ∷ args) used alloced vs e = elim (Bool-cases (below_max cmax used)) [
    | inr full ↦ nothing_collected used (arg ∷ args) vs (sym (rw full) ∙ e)
    | inl below ↦
        round_end used arg args vs (used == alloced && not (memory (alloced + 8)))
          (take_arg used arg)
          (collect memory cmax take_arg (used + 1)
            (if used == alloced then alloced + 8 else alloced) args)
          below
          (λ ws. collect_lem args (used + 1) (if used == alloced then alloced + 8 else alloced) ws)
          (sym (rw below) ∙ e)
  ]

  abbrev Result : Type 0
  Result = Option (ℕ × List V)

  same_result :
      (k j : ℕ) (ws vs : List V)
      → ◌≡◌ {A = Result} (some (k, ws)) (some (j, vs))
      → (k ≡ j) × (ws ≡ vs)
  same_result k j ws vs h = (cc, cc)

  no_result : (j : ℕ) (vs : List V) → ◌≡◌ {A = Result} none (some (j, vs)) → ⊥
  no_result j vs h = cc

  abbrev enough_of : ℕ → ℕ → List V → Result
  enough_of i cmin ws = if ltb (length ws) cmin then none else some (i + length ws, ws)

  -- What is known of the result of a function for several parameters.
  abbrev Gives : List Str → ℕ → ℕ → ℕ → List V → Type 0
  Gives argv i cmin j vs =
      (cmin ≤ length vs) × IsWithin cmax 0 (length vs) × (j ≡ i + length vs) × (j < length argv)

  all_given :
      (argv : List Str) (i cmin j : ℕ) (ws vs : List V)
      → i + cmin < length argv
      → Collects 0 (drop (i + 1) argv) ws
      → enough_of i cmin ws ≡ some (j, vs)
      → Gives argv i cmin j vs
  all_given argv i cmin j ws vs room (few, within) e = elim (Bool-cases (ltb (length ws) cmin)) [
    | inl short ↦ absurd (no_result j vs (sym (rw short) ∙ e))
    | inr long ↦
        let (same_j, same_vs) = same_result (i + length ws) j ws vs (sym (rw long) ∙ e) in
        subst (λ (l : List V). Gives argv i cmin j l) same_vs
          (ground arith, within, sym same_j, omega (arith, same_j, length-drop (i + 1) argv))
  ]

  collected :
      (argv : List Str) (i cmin j : ℕ) (vs : List V) (o : Option (List V))
      → i + cmin < length argv
      → ((ws : List V) → o ≡ some ws → Collects 0 (drop (i + 1) argv) ws)
      → ◌>>=?◌ {B = ℕ × List V} o (enough_of i cmin) ≡ some (j, vs)
      → Gives argv i cmin j vs
  collected argv i cmin j vs none room known e = cc
  collected argv i cmin j vs (some ws) room known e =
      all_given argv i cmin j ws vs room (known ws refl) e

  -- Without an exit, a function for several parameters of the option at `i` returns at least `cmin` values, at most `cmax` of
  -- them if there is a maximum, and the index of the parameter that the last value was read from, which is one of `argv`'s.
  pub get_opts_lem :
      (argv : List Str) (i cmin j : ℕ) (vs : List V)
      → get_opts memory take_arg argv i cmin cmax ≡ some (j, vs)
      → Gives argv i cmin j vs
  unfolding get_opts
  get_opts_lem argv i cmin j vs e = elim (Bool-cases (leb (length argv) (i + cmin))) [
    | inl few ↦ absurd (no_result j vs (sym (rw few) ∙ e))
    | inr enough ↦ elim (Bool-cases (memory (cmin + 4))) [
      | inr out ↦ absurd (no_result j vs (sym (rw (enough, out)) ∙ e))
      | inl there ↦
          collected argv i cmin j vs (collect memory cmax take_arg 0 (cmin + 4) (drop (i + 1) argv))
            (ground arith) (λ ws. collect_lem (drop (i + 1) argv) 0 (cmin + 4) ws)
            (sym (rw (enough, there)) ∙ e)
    ]
  ]

-- ===== src/Trm/Parse/Rounds.antt =====
-- The loop of parseCmdline comes to its end: each round goes on to a later argument.
use c4l.Common.{
  ℕ, zero, suc, ◌+◌, ◌-◌, ◌<◌, ◌≤◌, ◌≡◌, ◌≢◌, refl, arith, Option, none, some, List, [], ◌∷◌, Bool,
  true, false, ltb, length, get_elem?, if◌then◌else◌, ◌>>=?◌,
}
use c4l.Trm.Cmdline.{
  Str, ℤ, Conversion, convert, int_range, str_eq, has_dash, get_string_opt, get_int_opt,
  get_number_opt,
}
use c4l.Trm.Parse.{
  Cmdline, Parsed, filled, exits, runs_on, next_round, no_more, parse_arg, parse_loop,
  parse_cmdline, flag_p, flag_irq, flag_d, flag_hw, defaults, or_old,
}

get_some : (l : List Str) (i : ℕ) (x : Str) → get_elem? l i ≡ some x → i < length l
get_some [] i x e = absurd (cc)
get_some (y ∷ l) zero x e = omega arith
get_some (y ∷ l) (suc i) x e = omega (arith, get_some l i x e)

get_none : (l : List Str) (i : ℕ) → get_elem? l i ≡ none → length l ≤ i
get_none [] i e = omega arith
get_none (y ∷ l) zero e = absurd (cc)
get_none (y ∷ l) (suc i) e = omega (arith, get_none l i e)

module _ (argv : List Str) where
  -- What is found after an option is an argument.
  abbrev At : {V : Type 0} → ℕ → Option (ℕ × Option V) → Type 0
  At i none = Unit {0}
  At i (some (j, v)) = (i ≤ j) × (j < length argv)

  string_At : (i : ℕ) → At i (get_string_opt argv i true)
  unfolding get_string_opt
  string_At i = from (get_elem? argv (i + 1)) refl
    where
      from : (o : Option Str) → get_elem? argv (i + 1) ≡ o → At i (get_string_opt argv i true)
      from none e = rw (get_string_opt, e) tt
      from (some arg) e = rw (get_string_opt, e) (omega arith, get_some argv (i + 1) arg e)

  number_At :
      (strtol : Str → Conversion ℤ) (i : ℕ)
      → i < length argv
      → At i (get_int_opt strtol argv i true)
  unfolding get_int_opt get_number_opt
  number_At strtol i lt = from (get_elem? argv (i + 1)) refl
    where
      found :
          (arg : Str) (o : Option (Option ℤ))
          → get_elem? argv (i + 1) ≡ some arg
          → convert strtol int_range arg ≡ o
          → At i (get_int_opt strtol argv i true)
      found arg none e f = rw (get_int_opt, get_number_opt, e, f) tt
      found arg (some none) e f = rw (get_int_opt, get_number_opt, e, f) tt
      found arg (some (some v)) e f =
          rw (get_int_opt, get_number_opt, e, f) (omega arith, get_some argv (i + 1) arg e)

      from : (o : Option Str) → get_elem? argv (i + 1) ≡ o → At i (get_int_opt strtol argv i true)
      from none e = rw (get_int_opt, get_number_opt, e) tt
      from (some arg) e = found arg (convert strtol int_range arg) e refl

  -- The next argument is a later one.
  abbrev GoesOn : ℕ → Option (ℕ × Cmdline) → Type 0
  GoesOn i none = Unit {0}
  GoesOn i (some (j, c)) = (i < j) × (j ≤ length argv)

  steps-GoesOn :
      {V : Type 0} (i : ℕ) (o : Option (ℕ × Option V)) (f : ℕ → Option V → Cmdline)
      → At i o
      → GoesOn i (o >>=? λ (j, v). some (j + 1, f j v))
  steps-GoesOn i none f h = tt
  steps-GoesOn i (some (j, v)) f (le, lt) = (omega (arith, le), omega (arith, lt))

  if-GoesOn :
      (i : ℕ) (b : Bool) (x y : Option (ℕ × Cmdline))
      → GoesOn i x
      → GoesOn i y
      → GoesOn i (if b then x else y)
  if-GoesOn i true x y p q = p
  if-GoesOn i false x y p q = q

  module _ (strtol : Str → Conversion ℤ) where
    parse_arg-GoesOn :
        (i : ℕ) (arg : Str) (c : Cmdline)
        → i < length argv
        → GoesOn i (parse_arg strtol argv i arg c)
    unfolding parse_arg
    parse_arg-GoesOn i arg c lt =
        if-GoesOn i (str_eq flag_p arg) _ _
          (steps-GoesOn i (get_string_opt argv i true)
            (λ j v. record c { base_p = 1; base = or_old c.base v; base_c = j - i }) (string_At i))
          (if-GoesOn i (str_eq flag_irq arg) _ _
            (steps-GoesOn i (get_int_opt strtol argv i true)
              (λ j v. record c { irq_p = 1; irq = or_old c.irq v; irq_c = j - i })
              (number_At strtol i lt))
            (if-GoesOn i (str_eq flag_d arg) _ _
              (steps-GoesOn i (get_string_opt argv i true)
                (λ j v. record c { dnp_p = 1; dnp = or_old c.dnp v; dnp_c = j - i }) (string_At i))
              (if-GoesOn i (str_eq flag_hw arg) _ _
                (steps-GoesOn i (get_string_opt argv i true)
                  (λ j v. record c { hw_p = 1; hw = or_old c.hw v; hw_c = j - i }) (string_At i))
                (if-GoesOn i (has_dash arg) _ _ tt (omega arith, omega (arith, lt))))))

    round-ends :
        (fuel i : ℕ) (o : Option (ℕ × Cmdline))
        → GoesOn i o
        → ((j : ℕ) (c : Cmdline)
            → i < j
            → j ≤ length argv
            → parse_loop strtol argv fuel j c ≢ runs_on)
        → next_round o (parse_loop strtol argv fuel) ≢ runs_on
    round-ends fuel i none g rest r = absurd (cc)
    round-ends fuel i (some (j, c)) (lt, le) rest r = rest j c lt le r

    loop_ends :
        (fuel i : ℕ) (c : Cmdline)
        → i ≤ length argv
        → length argv < i + fuel
        → parse_loop strtol argv fuel i c ≢ runs_on
    unfolding parse_loop
    loop_ends zero i c le h = absurd (omega (arith, le, h))
    loop_ends (suc fuel) i c le h =
        at (λ j c' lt le'. loop_ends fuel j c' le' (omega (arith, lt, h))) (get_elem? argv i) refl
      where
        done : (c : Cmdline) → filled c ≢ runs_on
        done c r = absurd (cc)

        at :
            ((j : ℕ) (c : Cmdline)
              → i < j
              → j ≤ length argv
              → parse_loop strtol argv fuel j c ≢ runs_on)
            → (o : Option Str) → get_elem? argv i ≡ o
            → parse_loop strtol argv (suc fuel) i c ≢ runs_on
        at rest none e = rw (parse_loop, e) (done c)
        at rest (some arg) e =
            rw (parse_loop, e)
              (round-ends fuel i (parse_arg strtol argv i arg c)
                (parse_arg-GoesOn i arg c (get_some argv i arg e)) rest)

no_more-ends : (r : Parsed) → r ≢ runs_on → no_more r ≢ runs_on
no_more-ends (filled c) h = by_count (ltb 0 (c.argc - 1))
  where
    by_count :
        (b : Bool)
        → ◌≢◌ {A = Parsed} (if b then exits else filled (record c { argc = c.argc - 1 })) runs_on
    by_count true r = absurd (cc)
    by_count false r = absurd (cc)
no_more-ends exits h = h
no_more-ends runs_on h = h

-- The rounds are enough.
pub parse_cmdline-ends :
    (strtol : Str → Conversion ℤ) (argv : List Str) → parse_cmdline strtol argv ≢ runs_on
unfolding parse_cmdline parse_loop
parse_cmdline-ends strtol [] = λ r. absurd (cc)
parse_cmdline-ends strtol (prog ∷ args) = no_more-ends _ (
    loop_ends (prog ∷ args) strtol (length (prog ∷ args) + 1) 1
      (record defaults { argc = 1; args = [] }) (omega arith) (omega arith))

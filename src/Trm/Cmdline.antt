-- ===== src/Trm/Cmdline.antt =====
-- trm816/cmdline.c: the parser of the tool's options. A string is the list of its
-- characters, `none` is `exit(EXIT_FAILURE)`, and `strtol` and `strtod` are arguments.
pub mod Values
pub mod Floats
use c4l.Common.{
  ℕ, zero, suc, ◌+◌, ◌^◌, Option, none, some, List, [], ◌∷◌, Bool, true, false, not, ◌&&◌, ◌||◌,
  ◌==◌, ltb, leb, if◌then◌else◌, length, get_elem?, drop, ◌>>=?◌,
}

abbrev pub Str : Type 0
Str = List ℕ

pub data ℤ : Type 0 where
  pos : ℕ → ℤ
  negsuc : ℕ → ℤ

-- A conversion: the value, what `*end` points at, whether `end` is the start, and whether `errno` is ERANGE.
pub record Conversion (V : Type 0) : Type 0 where
  pub value : V
  pub rest : Str
  pub nothing : Bool
  pub erange : Bool

abbrev pub isspace : ℕ → Bool
isspace c = c == 32 || (leb 9 c && leb c 13)

unfoldable pub skip_space : Str → Str
skip_space [] = []
skip_space (c ∷ s) = let rest = skip_space s in if isspace c then rest else c ∷ s

abbrev pub is_empty : Str → Bool
is_empty [] = true
is_empty (_ ∷ _) = false

-- `v <= INT_MAX && v >= INT_MIN`.
abbrev pub fits_int : ℤ → Bool
fits_int (pos n) = ltb n (2 ^ 31)
fits_int (negsuc n) = ltb n (2 ^ 31)

unfoldable pub str_eq : Str → Str → Bool
str_eq [] [] = true
str_eq [] (_ ∷ _) = false
str_eq (_ ∷ _) [] = false
str_eq (c ∷ s) (d ∷ t) = let rest = str_eq s t in c == d && rest

-- The body that the functions for one number share: a missing or malformed parameter is an error under `force`, else the
-- index stays; a parameter that is out of range is an error.
unfoldable pub convert :
    {V : Type 0} → (Str → Conversion V) → (Conversion V → Bool) → Str → Option (Option V)
unfolding skip_space
convert strto out_of_range arg =
    let c = strto arg in
    if c.nothing || not (is_empty (skip_space c.rest))
    then some none
    else if out_of_range c
    then none
    else some (some c.value)

abbrev pub not_found : {V : Type 0} → ℕ → Bool → Option (ℕ × Option V)
not_found i force = if force then none else some (i, none)

abbrev pub settle : {V : Type 0} → ℕ → Bool → Option V → Option (ℕ × Option V)
settle i force none = not_found i force
settle i force (some v) = some (i + 1, some v)

unfoldable pub get_number_opt :
    {V : Type 0}
    → (Str → Conversion V)
    → (Conversion V → Bool)
    → List Str
    → ℕ
    → Bool
    → Option (ℕ × Option V)
unfolding convert
get_number_opt strto out_of_range argv i force = elim (get_elem? argv (i + 1)) [
  | none ↦ not_found i force
  | some arg ↦ convert strto out_of_range arg >>=? settle i force
]

abbrev pub long_range : {V : Type 0} → Conversion V → Bool
long_range c = c.erange

abbrev pub int_range : Conversion ℤ → Bool
int_range c = c.erange || not (fits_int c.value)

-- getIntOpt, getLongOpt and getDoubleOpt: the new index, and the value if one was found.
unfoldable pub get_int_opt : (Str → Conversion ℤ) → List Str → ℕ → Bool → Option (ℕ × Option ℤ)
unfolding get_number_opt
get_int_opt strtol = get_number_opt strtol int_range

unfoldable pub get_long_opt : (Str → Conversion ℤ) → List Str → ℕ → Bool → Option (ℕ × Option ℤ)
unfolding get_number_opt
get_long_opt strtol = get_number_opt strtol long_range

unfoldable pub get_double_opt :
    {V : Type 0} → (Str → Conversion V) → List Str → ℕ → Bool → Option (ℕ × Option V)
unfolding get_number_opt
get_double_opt strtod = get_number_opt strtod long_range

-- `cmax==-1 || used<cmax`, where `none` is -1.
abbrev pub below_max : Option ℕ → ℕ → Bool
below_max none used = true
below_max (some cmax) used = ltb used cmax

-- The loops of the functions for several parameters, on the parameters that are left. `memory n` tells whether an array of
-- `n` elements can be had, and `take_arg` is what is done with a parameter: `none` ends the program, `some none` the loop.
unfoldable pub collect :
    {V : Type 0}
    → (ℕ → Bool)
    → Option ℕ
    → (ℕ → Str → Option (Option V))
    → ℕ
    → ℕ
    → List Str
    → Option (List V)
collect memory cmax take_arg used alloced [] = some []
collect memory cmax take_arg used alloced (arg ∷ args) =
    let alloced' : ℕ = if used == alloced then alloced + 8 else alloced in
    let rest = collect memory cmax take_arg (used + 1) alloced' args in
    if not (below_max cmax used)
    then some []
    else if used == alloced && not (memory (alloced + 8))
    then none
    else take_arg used arg >>=? λ o. elim o [
      | none ↦ some []
      | some v ↦ rest >>=? λ vs. some (v ∷ vs)
    ]

unfoldable pub get_opts :
    {V : Type 0}
    → (ℕ → Bool)
    → (ℕ → Str → Option (Option V))
    → List Str
    → ℕ
    → ℕ
    → Option ℕ
    → Option (ℕ × List V)
unfolding collect
get_opts memory take_arg argv i cmin cmax =
    if leb (length argv) (i + cmin)
    then none
    else if not (memory (cmin + 4))
    then none
    else collect memory cmax take_arg 0 (cmin + 4) (drop (i + 1) argv) >>=? λ vs.
        if ltb (length vs) cmin then none else some (i + length vs, vs)

-- getIntOpts, getLongOpts and getDoubleOpts: the new index and the values.
unfoldable pub get_int_opts :
    (ℕ → Bool) → (Str → Conversion ℤ) → List Str → ℕ → ℕ → Option ℕ → Option (ℕ × List ℤ)
unfolding get_opts convert
get_int_opts memory strtol = get_opts memory (λ used arg. convert strtol int_range arg)

unfoldable pub get_long_opts :
    (ℕ → Bool) → (Str → Conversion ℤ) → List Str → ℕ → ℕ → Option ℕ → Option (ℕ × List ℤ)
unfolding get_opts convert
get_long_opts memory strtol = get_opts memory (λ used arg. convert strtol long_range arg)

unfoldable pub get_double_opts :
    {V : Type 0}
    → (ℕ → Bool)
    → (Str → Conversion V)
    → List Str
    → ℕ
    → ℕ
    → Option ℕ
    → Option (ℕ × List V)
unfolding get_opts convert
get_double_opts memory strtod = get_opts memory (λ used arg. convert strtod long_range arg)

-- `arg[0] == '-'`.
abbrev pub has_dash : Str → Bool
has_dash [] = false
has_dash (c ∷ s) = c == 45

-- getStringOpt.
unfoldable pub get_string_opt : List Str → ℕ → Bool → Option (ℕ × Option Str)
get_string_opt argv i force = elim (get_elem? argv (i + 1)) [
  | none ↦ not_found i force
  | some arg ↦ if not force && has_dash arg then some (i, none) else some (i + 1, some arg)
]

-- getStringOpts.
unfoldable pub get_string_opts : (ℕ → Bool) → List Str → ℕ → ℕ → Option ℕ → Option (ℕ × List Str)
unfolding get_opts
get_string_opts memory argv i cmin cmax =
    get_opts memory
      (λ used arg. if leb cmin used && has_dash arg then some none else some (some arg)) argv i cmin
      cmax

-- The checks of values: whether the program goes on.
unfoldable pub check_each : {V : Type 0} → (V → Bool) → List V → ℕ → Bool
check_each good values zero = true
check_each good [] (suc count) = true
check_each good (v ∷ values) (suc count) = let rest = check_each good values count in good v && rest

-- `<=` on `int` and `long`.
abbrev pub int_leb : ℤ → ℤ → Bool
int_leb (pos a) (pos b) = leb a b
int_leb (pos a) (negsuc b) = false
int_leb (negsuc a) (pos b) = true
int_leb (negsuc a) (negsuc b) = leb b a

-- checkIntLower and checkLongLower; checkIntHigher and checkLongHigher.
unfoldable pub check_lower : List ℤ → ℕ → ℤ → Bool
unfolding check_each
check_lower values count max = check_each (λ v. int_leb v max) values count

unfoldable pub check_higher : List ℤ → ℕ → ℤ → Bool
unfolding check_each
check_higher values count min = check_each (λ v. int_leb min v) values count

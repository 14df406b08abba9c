-- ===== src/Trm/Cmdline/Floats.antt =====
-- trm816/cmdline.c: the functions on `float`, and the checks of values of `float` and `double`. The arithmetic of the two
-- types is an argument.
use c4l.Common.{ℕ, Option, some, List, Bool, not, ◌&&◌, ◌||◌, ◌>>=?◌}
use c4l.Trm.Cmdline.{Str, Conversion, convert, get_number_opt, get_opts, check_each}

-- What the functions ask of a double `v`: `v==0.0`, `v<HUGE_VAL && v>-HUGE_VAL`, `|v|>FLT_MAX`, `|v|<FLT_MIN` and
-- `(float)v`; and `a<=b` of two floats.
pub record FloatOps (Double Float : Type 0) : Type 0 where
  pub is_zero : Double → Bool
  pub is_finite : Double → Bool
  pub over_max : Double → Bool
  pub under_min : Double → Bool
  pub to_float : Double → Float
  pub float_leb : Float → Float → Bool

module _ {Double Float : Type 0} (ops : FloatOps Double Float) where
  abbrev too_large : Conversion Double → Bool
  too_large c =
      (c.erange && not (ops.is_zero c.value)) || (ops.is_finite c.value && ops.over_max c.value)

  abbrev too_small : Conversion Double → Bool
  too_small c =
      (c.erange && ops.is_zero c.value) || (not (ops.is_zero c.value) && ops.under_min c.value)

  -- checkFloatConversion: whether it ends the program.
  unfoldable pub check_float_conversion : Conversion Double → Bool
  check_float_conversion c = too_large c || too_small c

  abbrev narrowed : Option Double → Option Float
  narrowed o = o >>=? λ v. some (ops.to_float v)

  -- getFloatOpt.
  unfoldable pub get_float_opt :
      (Str → Conversion Double) → List Str → ℕ → Bool → Option (ℕ × Option Float)
  unfolding get_number_opt check_float_conversion
  get_float_opt strtod argv i force =
      get_number_opt strtod check_float_conversion argv i force >>=? λ (j, o). some (j, narrowed o)

  -- getFloatOpts.
  unfoldable pub get_float_opts :
      (ℕ → Bool) → (Str → Conversion Double) → List Str → ℕ → ℕ → Option ℕ → Option (ℕ × List Float)
  unfolding get_opts convert check_float_conversion
  get_float_opts memory strtod =
      get_opts memory
        (λ used arg. convert strtod check_float_conversion arg >>=? λ o. some (narrowed o))

  -- checkFloatLower and checkFloatHigher.
  unfoldable pub check_float_lower : List Float → ℕ → Float → Bool
  unfolding check_each
  check_float_lower values count max = check_each (λ v. ops.float_leb v max) values count

  unfoldable pub check_float_higher : List Float → ℕ → Float → Bool
  unfolding check_each
  check_float_higher values count min = check_each (λ v. ops.float_leb min v) values count

-- checkDoubleLower and checkDoubleHigher, with `a<=b` of two doubles.
unfoldable pub check_double_lower :
    {Double : Type 0} → (Double → Double → Bool) → List Double → ℕ → Double → Bool
unfolding check_each
check_double_lower double_leb values count max = check_each (λ v. double_leb v max) values count

unfoldable pub check_double_higher :
    {Double : Type 0} → (Double → Double → Bool) → List Double → ℕ → Double → Bool
unfolding check_each
check_double_higher double_leb values count min = check_each (λ v. double_leb min v) values count

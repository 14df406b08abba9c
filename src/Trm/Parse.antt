-- ===== src/Trm/Parse.antt =====
-- trm816/cmdline.c: parseCmdline, which walks over `argv` and fills the static `cmd`.
pub mod Render
pub mod Rounds
use c4l.Common.{
  ℕ, zero, suc, ◌+◌, ◌-◌, Option, none, some, List, [], ◌∷◌, ◌++◌, Bool, true, false, ◌==◌, ltb,
  if◌then◌else◌, length, get_elem?, ◌>>=?◌,
}
use c4l.Trm.Cmdline.{Str, ℤ, pos, Conversion, str_eq, has_dash, get_string_opt, get_int_opt}

-- `struct s_Cmdline`. `args` is what `argv` points at in the end.
pub record Cmdline : Type 0 where
  pub base_p : ℕ
  pub base : Str
  pub base_c : ℕ
  pub irq_p : ℕ
  pub irq : ℤ
  pub irq_c : ℕ
  pub dnp_p : ℕ
  pub dnp : Str
  pub dnp_c : ℕ
  pub hw_p : ℕ
  pub hw : Str
  pub hw_c : ℕ
  pub argc : ℕ
  pub args : List Str

-- The static `cmd`: "0x280", 6, "1486" and "trm816".
abbrev pub defaults : Cmdline
defaults = record {
  base_p = 1;
  base = 48 ∷ 120 ∷ 50 ∷ 56 ∷ 48 ∷ [];
  base_c = 1;
  irq_p = 1;
  irq = pos 6;
  irq_c = 1;
  dnp_p = 1;
  dnp = 49 ∷ 52 ∷ 56 ∷ 54 ∷ [];
  dnp_c = 1;
  hw_p = 1;
  hw = 116 ∷ 114 ∷ 109 ∷ 56 ∷ 49 ∷ 54 ∷ [];
  hw_c = 1;
  argc = 0;
  args = [];
}

-- "-p", "-irq", "-d" and "-hw".
abbrev pub flag_p : Str
flag_p = 45 ∷ 112 ∷ []

abbrev pub flag_irq : Str
flag_irq = 45 ∷ 105 ∷ 114 ∷ 113 ∷ []

abbrev pub flag_d : Str
flag_d = 45 ∷ 100 ∷ []

abbrev pub flag_hw : Str
flag_hw = 45 ∷ 104 ∷ 119 ∷ []

abbrev pub or_old : {A : Type 0} → A → Option A → A
or_old old none = old
or_old old (some new) = new

-- One round of the loop for the argument `arg` at `i`: the next `i`, and the filled `cmd`.
unfoldable pub parse_arg :
    (Str → Conversion ℤ) → List Str → ℕ → Str → Cmdline → Option (ℕ × Cmdline)
unfolding str_eq get_string_opt get_int_opt
parse_arg strtol argv i arg c =
    if str_eq flag_p arg
    then (get_string_opt argv i true >>=? λ (j, v).
        some (j + 1, record c { base_p = 1; base = or_old c.base v; base_c = j - i }))
    else if str_eq flag_irq arg
    then (get_int_opt strtol argv i true >>=? λ (j, v).
        some (j + 1, record c { irq_p = 1; irq = or_old c.irq v; irq_c = j - i }))
    else if str_eq flag_d arg
    then (get_string_opt argv i true >>=? λ (j, v).
        some (j + 1, record c { dnp_p = 1; dnp = or_old c.dnp v; dnp_c = j - i }))
    else if str_eq flag_hw arg
    then (get_string_opt argv i true >>=? λ (j, v).
        some (j + 1, record c { hw_p = 1; hw = or_old c.hw v; hw_c = j - i }))
    else if has_dash arg
    then none
    else some (i + 1, record c { argc = c.argc + 1; args = c.args ++ arg ∷ [] })

-- How the parser ends: with a filled `cmd`, or by an exit. A loop that uses up its rounds runs on.
pub data Parsed : Type 0 where
  filled : Cmdline → Parsed
  exits : Parsed
  runs_on : Parsed

abbrev pub next_round : Option (ℕ × Cmdline) → (ℕ → Cmdline → Parsed) → Parsed
next_round none rest = exits
next_round (some (j, c)) rest = rest j c

-- The loop, with one round of `fuel` for each argument at most.
unfoldable pub parse_loop : (Str → Conversion ℤ) → List Str → ℕ → ℕ → Cmdline → Parsed
unfolding parse_arg
parse_loop strtol argv zero i c = runs_on
parse_loop strtol argv (suc fuel) i c = elim (get_elem? argv i) [
  | none ↦ filled c
  | some arg ↦ next_round (parse_arg strtol argv i arg c) (parse_loop strtol argv fuel)
]

-- Arguments that belong to no option are not allowed.
abbrev pub no_more : Parsed → Parsed
no_more (filled c) =
    let c' : Cmdline = record c { argc = c.argc - 1 } in if ltb 0 c'.argc then exits else filled c'
no_more exits = exits
no_more runs_on = runs_on

unfoldable pub parse_cmdline : (Str → Conversion ℤ) → List Str → Parsed
unfolding parse_loop
parse_cmdline strtol argv =
    no_more (parse_loop strtol argv (length argv + 1) 1 (record defaults { argc = 1; args = [] }))

-- ===== src/Trm/Parse/Render.antt =====
-- parseCmdline reads back any list of options.
use c4l.Common.{
  ℕ, zero, suc, ◌+◌, ◌*◌, ◌-◌, ◌<◌, ◌≡◌, refl, ◌∙◌, sym, ap, ap₂, arith, none, some, List, [], ◌∷◌,
  ◌++◌, true, length, length-append, get_elem?,
}
use c4l.Trm.Cmdline.{
  Str, ℤ, Conversion, convert, int_range, get_string_opt, get_int_opt, get_number_opt, str_eq,
}
use c4l.Trm.Parse.{
  filled, Cmdline, defaults, flag_p, flag_irq, flag_d, flag_hw, parse_arg, parse_loop,
  parse_cmdline,
}

-- An option with its parameter; for `irq`, with the number that the parameter stands for.
pub data Opt : Type 0 where
  p : Str → Opt
  irq : Str → ℤ → Opt
  d : Str → Opt
  hw : Str → Opt

unfoldable pub render : List Opt → List Str
render [] = []
render (p s ∷ opts) = flag_p ∷ s ∷ render opts
render (irq s v ∷ opts) = flag_irq ∷ s ∷ render opts
render (d s ∷ opts) = flag_d ∷ s ∷ render opts
render (hw s ∷ opts) = flag_hw ∷ s ∷ render opts

-- What the options mean: a later one takes the place of an earlier one.
unfoldable pub apply : List Opt → Cmdline → Cmdline
apply [] c = c
apply (p s ∷ opts) c = apply opts (record c { base_p = 1; base = s; base_c = 1 })
apply (irq s v ∷ opts) c = apply opts (record c { irq_p = 1; irq = v; irq_c = 1 })
apply (d s ∷ opts) c = apply opts (record c { dnp_p = 1; dnp = s; dnp_c = 1 })
apply (hw s ∷ opts) c = apply opts (record c { hw_p = 1; hw = s; hw_c = 1 })

-- The parameters of all `irq` options are numbers that fit.
abbrev pub AllNumbers : (Str → Conversion ℤ) → List Opt → Type 0
AllNumbers strtol [] = Unit {0}
AllNumbers strtol (irq s v ∷ opts) =
    (convert strtol int_range s ≡ some (some v)) × AllNumbers strtol opts
AllNumbers strtol (_ ∷ opts) = AllNumbers strtol opts

get_at :
    (pre : List Str) (a : Str) (post : List Str) → get_elem? (pre ++ a ∷ post) (length pre) ≡ some a
get_at [] a post = refl
get_at (x ∷ pre) a post = get_at pre a post

get_end : (pre : List Str) → get_elem? (pre ++ []) (length pre) ≡ none
get_end [] = refl
get_end (x ∷ pre) = get_end pre

append_two :
    (pre : List Str) (a b : Str) (post : List Str)
    → pre ++ a ∷ b ∷ post ≡ (pre ++ a ∷ b ∷ []) ++ post
append_two [] a b post = refl
append_two (x ∷ pre) a b post = ap (◌∷◌ x) (append_two pre a b post)

get_next :
    (pre : List Str) (a b : Str) (post : List Str)
    → get_elem? (pre ++ a ∷ b ∷ post) (length pre + 1) ≡ some b
get_next [] a b post = refl
get_next (x ∷ pre) a b post =
    ap (λ (i : ℕ). get_elem? (x ∷ (pre ++ a ∷ b ∷ post)) i) (shift (length pre))
    ∙ get_next pre a b post
  where
    shift : (n : ℕ) → suc n + 1 ≡ suc (n + 1)
    shift n = omega arith

one_more : (n : ℕ) → n + 1 - n ≡ 1
one_more n = omega arith

module _ (strtol : Str → Conversion ℤ) where
  -- The loop goes on after an option and its parameter.
  abbrev Goes : List Str → Str → Str → List Str → ℕ → Cmdline → Cmdline → Type 0
  Goes pre flag s post fuel c c' =
      parse_loop strtol (pre ++ flag ∷ s ∷ post) (suc fuel) (length pre) c
      ≡ parse_loop strtol ((pre ++ flag ∷ s ∷ []) ++ post) fuel (length (pre ++ flag ∷ s ∷ [])) c'

  next_at :
      (pre : List Str) (flag s : Str) (post : List Str) (fuel : ℕ) (c c' : Cmdline)
      → parse_arg strtol (pre ++ flag ∷ s ∷ post) (length pre) flag c
        ≡ some (length pre + 1 + 1, c')
      → Goes pre flag s post fuel c c'
  unfolding parse_loop
  next_at pre flag s post fuel c c' e =
      rw (parse_loop, get_at pre flag (s ∷ post), e)
        (ap₂ (λ (argv : List Str) (i : ℕ). parse_loop strtol argv fuel i c')
          (append_two pre flag s post) (omega (arith, length-append pre (flag ∷ s ∷ []))))

  string_at :
      (pre : List Str) (flag s : Str) (post : List Str)
      → get_string_opt (pre ++ flag ∷ s ∷ post) (length pre) true ≡ some (length pre + 1, some s)
  unfolding get_string_opt
  string_at pre flag s post = rw (get_string_opt, get_next pre flag s post)

  number_at :
      (pre : List Str) (flag s : Str) (v : ℤ) (post : List Str)
      → convert strtol int_range s ≡ some (some v)
      → get_int_opt strtol (pre ++ flag ∷ s ∷ post) (length pre) true
        ≡ some (length pre + 1, some v)
  unfolding get_int_opt get_number_opt
  number_at pre flag s v post e = rw (get_int_opt, get_number_opt, get_next pre flag s post, e)

  loop-render :
      (opts : List Opt) (pre : List Str) (fuel : ℕ) (c : Cmdline)
      → length opts < fuel
      → AllNumbers strtol opts
      → parse_loop strtol (pre ++ render opts) fuel (length pre) c ≡ filled (apply opts c)
  unfolding render apply parse_loop parse_arg str_eq
  loop-render opts pre zero c enough nums = absurd (omega arith)
  loop-render [] pre (suc fuel) c enough nums = rw (parse_loop, get_end pre)
  loop-render (p s ∷ opts) pre (suc fuel) c enough nums =
      next_at pre flag_p s (render opts) fuel c _
        (rw (string_at pre flag_p s (render opts), one_more (length pre)))
      ∙ loop-render opts (pre ++ flag_p ∷ s ∷ []) fuel _ (omega arith) nums
  loop-render (irq s v ∷ opts) pre (suc fuel) c enough (num, nums) =
      next_at pre flag_irq s (render opts) fuel c _
        (rw (number_at pre flag_irq s v (render opts) num, one_more (length pre)))
      ∙ loop-render opts (pre ++ flag_irq ∷ s ∷ []) fuel _ (omega arith) nums
  loop-render (d s ∷ opts) pre (suc fuel) c enough nums =
      next_at pre flag_d s (render opts) fuel c _
        (rw (string_at pre flag_d s (render opts), one_more (length pre)))
      ∙ loop-render opts (pre ++ flag_d ∷ s ∷ []) fuel _ (omega arith) nums
  loop-render (hw s ∷ opts) pre (suc fuel) c enough nums =
      next_at pre flag_hw s (render opts) fuel c _
        (rw (string_at pre flag_hw s (render opts), one_more (length pre)))
      ∙ loop-render opts (pre ++ flag_hw ∷ s ∷ []) fuel _ (omega arith) nums

length-render : (opts : List Opt) → length (render opts) ≡ 2 * length opts
unfolding render
length-render [] = omega arith
length-render (p s ∷ opts) = omega (arith, length-render opts)
length-render (irq s v ∷ opts) = omega (arith, length-render opts)
length-render (d s ∷ opts) = omega (arith, length-render opts)
length-render (hw s ∷ opts) = omega (arith, length-render opts)

apply-argc :
    (opts : List Opt) (c : Cmdline) (n : ℕ)
    → apply opts (record c { argc = n }) ≡ record (apply opts c) { argc = n }
unfolding apply
apply-argc [] c n = refl
apply-argc (p s ∷ opts) c n = apply-argc opts (record c { base_p = 1; base = s; base_c = 1 }) n
apply-argc (irq s v ∷ opts) c n = apply-argc opts (record c { irq_p = 1; irq = v; irq_c = 1 }) n
apply-argc (d s ∷ opts) c n = apply-argc opts (record c { dnp_p = 1; dnp = s; dnp_c = 1 }) n
apply-argc (hw s ∷ opts) c n = apply-argc opts (record c { hw_p = 1; hw = s; hw_c = 1 }) n

-- The command line of any list of options, each with its parameter, is parsed to what the options mean, without an exit.
pub parse_cmdline-render :
    (strtol : Str → Conversion ℤ) (prog : Str) (opts : List Opt)
    → AllNumbers strtol opts
    → parse_cmdline strtol (prog ∷ render opts) ≡ filled (apply opts defaults)
unfolding parse_cmdline
parse_cmdline-render strtol prog opts nums =
    rw (loop, apply-argc opts defaults 1) (ap filled (sym (apply-argc opts defaults 0)))
  where
    started : Cmdline
    started = record defaults { argc = 1; args = [] }

    loop :
        parse_loop strtol (prog ∷ render opts) (length (prog ∷ render opts) + 1) 1 started
        ≡ filled (apply opts started)
    loop =
        loop-render strtol opts (prog ∷ []) (length (prog ∷ render opts) + 1) started
          (omega (arith, length-render opts)) nums

-- ===== src/Examples/Tool.antt =====
-- Runs of the mapping tool and its parser.
use c4l.Common.{
  ℕ, Option, List, ◌-◌, ◌≡◌, refl, some, [], ◌∷◌, true, false, ◌&&◌, if◌then◌else◌, leb,
}
use c4l.Machine.{St}
use c4l.Examples.{ready}
use c4l.Trm.Elan.{adnptrm, dnp_map_can}
use c4l.Trm.Elan.Registers.{Registers, dnp_map_can_lem, elan, now, with_base, with_irq}
use c4l.Trm.Sc520.{Host}
use c4l.Trm.Setup.{main, scan_port}
use c4l.Trm.Setup.Status.{EndsWell, IsMappable, main-maps, main_status}
use c4l.Trm.Parse.Render.{apply, d, irq, parse_cmdline-render, render}
use c4l.Trm.Cmdline.{str_eq, Conversion, Str, convert, pos, ℤ}
use c4l.Trm.Parse.{filled, defaults, parse_cmdline}

-- A conversion that knows the digits.
abbrev digit : Str → Conversion ℤ
digit [] = record { value = pos 0; rest = []; nothing = true; erange = false }
digit (c ∷ s) =
    if leb 48 c && leb c 57
    then record { value = pos (c - 48); rest = s; nothing = false; erange = false }
    else record { value = pos 0; rest = c ∷ s; nothing = true; erange = false }

parse_cmdline-render_example :
    parse_cmdline digit ((120 ∷ []) ∷ render (d (53 ∷ []) ∷ irq (55 ∷ []) (pos 7) ∷ []))
    ≡ filled (apply (d (53 ∷ []) ∷ irq (55 ∷ []) (pos 7) ∷ []) defaults)
unfolding convert
parse_cmdline-render_example =
    parse_cmdline-render digit (120 ∷ []) (d (53 ∷ []) ∷ irq (55 ∷ []) (pos 7) ∷ []) (refl, tt)

abbrev as_given : ℕ → Str → Option (Option Str)
as_given used arg = some (some arg)

abbrev two_words : List Str
two_words = (120 ∷ []) ∷ (53 ∷ []) ∷ (55 ∷ []) ∷ []

-- A board with an Elan whose registers were 0, and the port 640 however it is written.
abbrev blank : Registers
blank i = 0

abbrev on_elan : St
on_elan = ready (λ log port. (elan blank log).1 (elan blank log).0)

abbrev root : Host
root = record { opens_mem = true; maps_mem = true; uid = 0 }

abbrev at_640 : Str → Option ℕ
at_640 s = some 640

main-maps_example :
    (st' : St) × (main root at_640 at_640 digit
        ((120 ∷ []) ∷ render (irq (55 ∷ []) (pos 7) ∷ []))
        on_elan
      ≡ some ((0, []), st'))
    × ((i : ℕ) → now blank st' i ≡ with_base 640 (with_irq 7 (now blank on_elan)) i)
unfolding convert str_eq scan_port apply
main-maps_example =
    main-maps root at_640 at_640 digit (120 ∷ []) (irq (55 ∷ []) (pos 7) ∷ []) 640 blank on_elan
      (refl, tt) refl refl refl refl (λ log. refl)

dnp_map_can_lem_example :
    (st' : St) × (dnp_map_can 640 7 adnptrm on_elan ≡ some (tt, st'))
    × (st'.env ≡ on_elan.env)
    × ((i : ℕ) → now blank st' i ≡ with_base 640 (with_irq 7 (now blank on_elan)) i)
dnp_map_can_lem_example = dnp_map_can_lem blank 640 7 on_elan (λ log. refl)

main_status_example :
    EndsWell
      (IsMappable root at_640 at_640 (parse_cmdline digit ((120 ∷ []) ∷ [])))
      (main root at_640 at_640 digit ((120 ∷ []) ∷ []))
      on_elan
main_status_example = main_status root at_640 at_640 digit ((120 ∷ []) ∷ []) on_elan

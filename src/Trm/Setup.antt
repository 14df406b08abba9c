-- ===== src/Trm/Setup.antt =====
-- trm816/dnpsetup.c: the tool's main function. `sscanf` with "%d" and "%x" are the arguments `dec` and `hex`; the messages
-- and `iopl` are not modelled.
pub mod Status
use c4l.Common.{
  ℕ, ◌+◌, ◌-◌, ◌^◌, ◌%◌, Option, none, some, List, [], ◌∷◌, Bool, true, false, not, ◌&&◌, ◌==◌,
  if◌then◌else◌,
}
use c4l.Machine.{M, pure, ◌>>=◌}
use c4l.Trm.Cmdline.{Str, ℤ, pos, negsuc, Conversion, str_eq}
use c4l.Trm.Parse.{Cmdline, Parsed, filled, exits, runs_on, parse_cmdline}
use c4l.Trm.Elan.{Board, adnptrm, adnpcust, dnp_map_can}
use c4l.Trm.Sc520.{Host, Xboard, xadnptrm, xadnpcust, MemWrite, adnp1520_map_can}

-- "1486", "1520", "trm816" and "custom".
abbrev pub type_1486 : Str
type_1486 = 49 ∷ 52 ∷ 56 ∷ 54 ∷ []

abbrev pub type_1520 : Str
type_1520 = 49 ∷ 53 ∷ 50 ∷ 48 ∷ []

abbrev pub hw_trm816 : Str
hw_trm816 = 116 ∷ 114 ∷ 109 ∷ 56 ∷ 49 ∷ 54 ∷ []

abbrev pub hw_custom : Str
hw_custom = 99 ∷ 117 ∷ 115 ∷ 116 ∷ 111 ∷ 109 ∷ []

-- `strchr(s, 'x') != NULL`.
unfoldable pub has_x : Str → Bool
has_x [] = false
has_x (c ∷ s) = let rest = has_x s in if c == 120 then true else rest

unfoldable pub scan_port : (Str → Option ℕ) → (Str → Option ℕ) → Str → Option ℕ
unfolding has_x
scan_port dec hex s = if has_x s then hex s else dec s

-- An `int` as an `unsigned`.
abbrev pub to_unsigned : ℤ → ℕ
to_unsigned (pos n) = n % 2 ^ 32
to_unsigned (negsuc n) = 2 ^ 32 - 1 - n

-- The exit status, and the writes to mapped memory.
abbrev pub Outcome : Type 0
Outcome = ℕ × List MemWrite

abbrev pub failed : Outcome
failed = (1, [])

-- The case of the DNP/1486: whether the user may not do it.
unfoldable pub map_1486 : Host → Cmdline → ℕ → M Bool
unfolding str_eq dnp_map_can
map_1486 host cmd port =
    if str_eq cmd.dnp type_1486
    then (if host.uid == 0
        then (dnp_map_can port (to_unsigned cmd.irq)
              (if str_eq cmd.hw hw_trm816 then adnptrm else adnpcust)
            >>= λ _. pure false)
        else pure true)
    else pure false

unfoldable pub map_1520 : Host → Cmdline → ℕ → Option (List MemWrite)
unfolding str_eq adnp1520_map_can
map_1520 host cmd port =
    if str_eq cmd.dnp type_1520
    then adnp1520_map_can host port (if str_eq cmd.hw hw_trm816 then xadnptrm else xadnpcust)
    else some []

abbrev pub finish : Option (List MemWrite) → M Outcome
finish none = pure failed
finish (some writes) = pure (0, writes)

unfoldable pub map_can : Host → Cmdline → ℕ → M Outcome
unfolding str_eq map_1486 map_1520
map_can host cmd port =
    if not (str_eq cmd.dnp type_1486) && not (str_eq cmd.dnp type_1520)
    then pure failed
    else if not (str_eq cmd.hw hw_trm816) && not (str_eq cmd.hw hw_custom)
    then pure failed
    else map_1486 host cmd port >>= λ denied.
        if denied then pure failed else finish (map_1520 host cmd port)

abbrev pub with_port : Host → Cmdline → Option ℕ → M Outcome
with_port host cmd none = pure failed
with_port host cmd (some port) = map_can host cmd port

abbrev pub with_cmdline : Host → (Str → Option ℕ) → (Str → Option ℕ) → Parsed → M Outcome
with_cmdline host dec hex exits = pure failed
with_cmdline host dec hex runs_on = λ st. none
with_cmdline host dec hex (filled cmd) = with_port host cmd (scan_port dec hex cmd.base)

unfoldable pub main :
    Host → (Str → Option ℕ) → (Str → Option ℕ) → (Str → Conversion ℤ) → List Str → M Outcome
unfolding parse_cmdline scan_port map_can
main host dec hex strtol argv = with_cmdline host dec hex (parse_cmdline strtol argv)

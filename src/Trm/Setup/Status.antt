-- ===== src/Trm/Setup/Status.antt =====
-- The exit status of the tool, and what it has done to the hardware then.
use c4l.Common.{
  ℕ, ◌≡◌, ◌≢◌, ◌⊎◌, inl, inr, refl, ◌∙◌, ap, arith, Option, none, some, List, [], ◌∷◌, Bool, true,
  false, not, ◌&&◌, ◌==◌, if◌then◌else◌, Bool-cases,
}
use c4l.Machine.{St, M, pure, ◌>>=◌, >>=-some}
use c4l.Trm.Cmdline.{Str, ℤ, Conversion, str_eq}
use c4l.Trm.Parse.{Cmdline, Parsed, filled, exits, runs_on, defaults, parse_cmdline}
use c4l.Trm.Parse.Rounds.{parse_cmdline-ends}
use c4l.Trm.Parse.Render.{Opt, AllNumbers, apply, render, parse_cmdline-render}
use c4l.Trm.Elan.{
  Board, adnptrm, adnpcust, write_port, read_port, change, map_irq, map_base, map_board,
  dnp_map_can,
}
use c4l.Trm.Elan.Registers.{Registers, IsElan, now, with_base, with_irq, dnp_map_can_lem}
use c4l.Trm.Sc520.{Host, MemWrite}
use c4l.Trm.Setup.{
  Outcome, failed, type_1486, type_1520, hw_trm816, hw_custom, to_unsigned, scan_port, finish,
  map_1486, map_1520, map_can, with_port, with_cmdline, main,
}

-- A part that always runs to its end.
abbrev RunsAt : {A : Type 0} → M A → St → Type 0
RunsAt {A} m st = (a : A) × (st' : St) × (m st ≡ some (a, st'))

record Runs {A : Type 0} (m : M A) : Type 0 where
  at : (st : St) → RunsAt m st

pure-Runs : {A : Type 0} (a : A) → Runs (pure a)
pure-Runs a = record { at = λ st. (a, st, refl) }

>>=-Runs : {A B : Type 0} (m : M A) (f : A → M B) → Runs m → ((a : A) → Runs (f a)) → Runs (m >>= f)
>>=-Runs {A} {B} m f p q = record { at = go }
  where
    go : (st : St) → RunsAt (m >>= f) st
    go st =
        let (a, st1, run1) = p.at st in
        let (b, st2, run2) = (q a).at st1 in (b, st2, >>=-some m f run1 ∙ run2)

if-Runs : {A : Type 0} (b : Bool) (m n : M A) → Runs m → Runs n → Runs (if b then m else n)
if-Runs true m n p q = p
if-Runs false m n p q = q

write_port-Runs : (i v : ℕ) → Runs (write_port i v)
unfolding write_port
write_port-Runs i v = record { at = λ st. (_, _, refl) }

read_port-Runs : (i : ℕ) → Runs (read_port i)
unfolding read_port
read_port-Runs i = record { at = λ st. (_, _, refl) }

ruleset runs = (pure-Runs, >>=-Runs, if-Runs, write_port-Runs, read_port-Runs)

change-Runs : (i : ℕ) (f : ℕ → ℕ) → Runs (change i f)
unfolding change
change-Runs i f = search runs

map_irq-Runs : (irq : ℕ) → Runs (map_irq irq)
unfolding map_irq
map_irq-Runs irq = search (runs, change-Runs)

map_base-Runs : (base : ℕ) → Runs (map_base base)
unfolding map_base
map_base-Runs base = search (runs, change-Runs) depth 15

map_board-Runs : (base : ℕ) (board : Board) → Runs (map_board base board)
unfolding map_board
map_board-Runs base adnptrm = map_base-Runs base
map_board-Runs base adnpcust = search runs

dnp_map_can-Runs : (base irq : ℕ) (board : Board) → Runs (dnp_map_can base irq board)
unfolding dnp_map_can
dnp_map_can-Runs base irq board = search (runs, map_irq-Runs, map_board-Runs)

-- The status is 0, if `Maps` holds, or it is 1 and the hardware is as it was.
abbrev pub EndsWell : Type 0 → M Outcome → St → Type 0
EndsWell Maps m st =
    (s : ℕ) × (writes : List MemWrite) × (st' : St) × (m st ≡ some ((s, writes), st'))
    × (((s ≡ 0) × Maps) ⊎ ((s ≡ 1) × (st' ≡ st) × (writes ≡ [])))

-- The options are those of a known board, which this user may map, and of a known hardware.
abbrev pub MayMap : Host → Cmdline → Type 0
MayMap host cmd =
    (((str_eq cmd.dnp type_1486 ≡ true) × (host.uid ≡ 0)) ⊎ (str_eq cmd.dnp type_1520 ≡ true))
    × ((str_eq cmd.hw hw_trm816 ≡ true) ⊎ (str_eq cmd.hw hw_custom ≡ true))

-- The command line is parsed to such options, and their port can be read.
abbrev pub IsMappable : Host → (Str → Option ℕ) → (Str → Option ℕ) → Parsed → Type 0
IsMappable host dec hex parsed =
    (cmd : Cmdline) × (port : ℕ) × (parsed ≡ filled cmd)
    × (scan_port dec hex cmd.base ≡ some port)
    × MayMap host cmd

fails : (P : Type 0) (m : M Outcome) (st : St) → m st ≡ some (failed, st) → EndsWell P m st
fails P m st run = (1, [], st, run, inr (refl, refl, refl))

str_eq→eq : (s t : Str) → str_eq s t ≡ true → s ≡ t
unfolding str_eq
str_eq→eq [] [] e = refl
str_eq→eq [] (d ∷ t) e = cc
str_eq→eq (c ∷ s) [] e = cc
str_eq→eq (c ∷ s) (d ∷ t) e = ground (arith, str_eq→eq s t)

not_1520 : (s : Str) → str_eq s type_1486 ≡ true → str_eq s type_1520 ≡ false
unfolding str_eq
not_1520 s e = ap (λ t. str_eq t type_1520) (str_eq→eq s type_1486 e)

abbrev rest_of : Host → Cmdline → ℕ → Bool → M Outcome
rest_of host cmd port denied = if denied then pure failed else finish (map_1520 host cmd port)

-- The board of the DNP/1486, by the type of the hardware.
abbrev board_of : Cmdline → Board
board_of cmd = if str_eq cmd.hw hw_trm816 then adnptrm else adnpcust

by_root :
    (host : Host) (cmd : Cmdline) (port : ℕ) (st st' : St)
    → str_eq cmd.dnp type_1486 ≡ true
    → (host.uid == 0) ≡ true
    → dnp_map_can port (to_unsigned cmd.irq) (board_of cmd) st ≡ some (tt, st')
    → map_1486 host cmd port st ≡ some (false, st')
unfolding map_1486
by_root host cmd port st st' is_1486 root run =
    rw (is_1486, root)
      (>>=-some (dnp_map_can port (to_unsigned cmd.irq) (board_of cmd)) (λ _. pure false) {st = st}
        {st' = st'} run)

none_1520 :
    (host : Host) (cmd : Cmdline) (port : ℕ)
    → str_eq cmd.dnp type_1486 ≡ true
    → map_1520 host cmd port ≡ some []
unfolding map_1520
none_1520 host cmd port is_1486 = rw (not_1520 cmd.dnp is_1486)

root_maps :
    (host : Host) (cmd : Cmdline) (port : ℕ) (st st' : St)
    → str_eq cmd.dnp type_1486 ≡ true
    → (host.uid == 0) ≡ true
    → dnp_map_can port (to_unsigned cmd.irq) (board_of cmd) st ≡ some (tt, st')
    → (map_1486 host cmd port >>= rest_of host cmd port) st ≡ some ((0, []), st')
root_maps host cmd port st st' is_1486 root run =
    >>=-some (map_1486 host cmd port) (rest_of host cmd port) {a = false} {st = st} {st' = st'}
      (by_root host cmd port st st' is_1486 root run)
    ∙ ap (λ o. finish o st') (none_1520 host cmd port is_1486)

-- The DNP/1486.
on_1486 :
    (host : Host) (cmd : Cmdline) (port : ℕ) (st : St)
    → str_eq cmd.dnp type_1486 ≡ true
    → (str_eq cmd.hw hw_trm816 ≡ true) ⊎ (str_eq cmd.hw hw_custom ≡ true)
    → EndsWell (MayMap host cmd) (map_1486 host cmd port >>= rest_of host cmd port) st
unfolding map_1486
on_1486 host cmd port st is_1486 hw = elim (Bool-cases (host.uid == 0)) [
  | inl root ↦
      let (a, st', run) = (dnp_map_can-Runs port (to_unsigned cmd.irq) (board_of cmd)).at st in
      (
        0,
        [],
        st',
        root_maps host cmd port st st' is_1486 root run,
        inl (refl, (inl (is_1486, ground arith), hw)),
      )
  | inr user ↦ fails (MayMap host cmd) (map_1486 host cmd port >>= rest_of host cmd port) st (
      >>=-some (map_1486 host cmd port) (rest_of host cmd port) {a = true} {st = st} {st' = st}
        (rw (is_1486, user)))
]

finished : (P : Type 0) → P → (o : Option (List MemWrite)) (st : St) → EndsWell P (finish o) st
finished P p none st = fails P (finish none) st refl
finished P p (some writes) st = (0, writes, st, refl, inl (refl, p))

same_end :
    {P : Type 0} (m n : M Outcome) {st : St} → m st ≡ n st → EndsWell P n st → EndsWell P m st
same_end m n e (s, writes, st', run, well) = (s, writes, st', e ∙ run, well)

on_other :
    (host : Host) (cmd : Cmdline) (port : ℕ) (st : St)
    → str_eq cmd.dnp type_1486 ≡ false
    → MayMap host cmd
    → EndsWell (MayMap host cmd) (map_1486 host cmd port >>= rest_of host cmd port) st
unfolding map_1486
on_other host cmd port st other may =
    same_end (map_1486 host cmd port >>= rest_of host cmd port) (finish (map_1520 host cmd port))
      (>>=-some (map_1486 host cmd port) (rest_of host cmd port) {a = false} {st = st} {st' = st}
        (rw other))
      (finished (MayMap host cmd) may (map_1520 host cmd port) st)

-- With a known type of board and hardware the tool goes on to the mapping.
goes_on :
    (host : Host) (cmd : Cmdline) (port : ℕ) (st : St)
    → (not (str_eq cmd.dnp type_1486) && not (str_eq cmd.dnp type_1520)) ≡ false
    → (not (str_eq cmd.hw hw_trm816) && not (str_eq cmd.hw hw_custom)) ≡ false
    → map_can host cmd port st ≡ (map_1486 host cmd port >>= rest_of host cmd port) st
unfolding map_can
goes_on host cmd port st type hw = rw (type, hw)

neither : (a b : Bool) → (not a && not b) ≡ false → (a ≡ true) ⊎ (b ≡ true)
neither true b e = inl refl
neither false true e = inr refl
neither false false e = absurd (cc)

other_one : {a b : Bool} → a ≡ false → (a ≡ true) ⊎ (b ≡ true) → b ≡ true
other_one e (inl f) = absurd (cc)
other_one e (inr f) = f

map_can-EndsWell :
    (host : Host) (cmd : Cmdline) (port : ℕ) (st : St)
    → EndsWell (MayMap host cmd) (map_can host cmd port) st
unfolding map_can
map_can-EndsWell host cmd port st =
    elim (Bool-cases (not (str_eq cmd.dnp type_1486) && not (str_eq cmd.dnp type_1520))) [
      | inl no_type ↦ fails (MayMap host cmd) (map_can host cmd port) st (rw no_type)
      | inr type ↦
          elim (Bool-cases (not (str_eq cmd.hw hw_trm816) && not (str_eq cmd.hw hw_custom))) [
            | inl no_hw ↦ fails (MayMap host cmd) (map_can host cmd port) st (rw (type, no_hw))
            | inr hw ↦
                same_end (map_can host cmd port) (map_1486 host cmd port >>= rest_of host cmd port)
                  (goes_on host cmd port st type hw)
                  (elim (Bool-cases (str_eq cmd.dnp type_1486)) [
                    | inl is_1486 ↦ on_1486 host cmd port st is_1486 (neither _ _ hw)
                    | inr other ↦
                        on_other host cmd port st other
                          (inr (other_one other (neither _ _ type)), neither _ _ hw)
                  ])
          ]
    ]

with_cmdline-EndsWell :
    (host : Host) (dec hex : Str → Option ℕ) (o : Parsed) (st : St)
    → o ≢ runs_on
    → EndsWell (IsMappable host dec hex o) (with_cmdline host dec hex o) st
with_cmdline-EndsWell host dec hex exits st h =
    fails (IsMappable host dec hex exits) (pure failed) st refl
with_cmdline-EndsWell host dec hex runs_on st h = absurd (h refl)
with_cmdline-EndsWell host dec hex (filled cmd) st h = ported (scan_port dec hex cmd.base) refl
  where
    at_port :
        (port : ℕ)
        → scan_port dec hex cmd.base ≡ some port
        → EndsWell (MayMap host cmd) (map_can host cmd port) st
        → EndsWell (IsMappable host dec hex (filled cmd)) (map_can host cmd port) st
    at_port port e (s, writes, st', run, inl (ok, may)) =
        (s, writes, st', run, inl (ok, (cmd, port, refl, e, may)))
    at_port port e (s, writes, st', run, inr same) = (s, writes, st', run, inr same)

    ported :
        (o : Option ℕ)
        → scan_port dec hex cmd.base ≡ o
        → EndsWell (IsMappable host dec hex (filled cmd)) (with_port host cmd o) st
    ported none e = fails (IsMappable host dec hex (filled cmd)) (pure failed) st refl
    ported (some port) e = at_port port e (map_can-EndsWell host cmd port st)

-- The tool always ends: the loop of its parser comes to an end, and its status is 0 or 1. It is 0 only if the command line is
-- parsed, without an exit, to options of a known board and a known hardware whose port can be read, and, for a DNP/1486, root calls the
-- tool. If it is 1, there has been no port access, and no write to mapped memory.
pub main_status :
    (host : Host) (dec hex : Str → Option ℕ) (strtol : Str → Conversion ℤ) (argv : List Str)
    (st : St)
    → EndsWell
        (IsMappable host dec hex (parse_cmdline strtol argv))
        (main host dec hex strtol argv)
        st
unfolding main
main_status host dec hex strtol argv st =
    with_cmdline-EndsWell host dec hex (parse_cmdline strtol argv) st
      (parse_cmdline-ends strtol argv)

-- Called by root with any options that choose a DNP/1486 and a TRM816 and give a port that can be read, the tool ends with
-- the status 0, and the registers of the Elan are those of a mapping to that port and the interrupt of the options.
pub main-maps :
    (host : Host) (dec hex : Str → Option ℕ) (strtol : Str → Conversion ℤ) (prog : Str)
    (opts : List Opt) (port : ℕ) (first : Registers) (st : St)
    → AllNumbers strtol opts
    → str_eq (apply opts defaults).dnp type_1486 ≡ true
    → str_eq (apply opts defaults).hw hw_trm816 ≡ true
    → scan_port dec hex (apply opts defaults).base ≡ some port
    → host.uid ≡ 0
    → IsElan first st
    → (st' : St) × (main host dec hex strtol (prog ∷ render opts) st ≡ some ((0, []), st'))
      × ((i : ℕ)
          → now first st' i
            ≡ with_base port (with_irq (to_unsigned (apply opts defaults).irq) (now first st)) i)
main-maps host dec hex strtol prog opts port first st nums is_1486 is_trm816 scanned root elan =
    let cmd = apply opts defaults in
    let (st', run, env, regs) = dnp_map_can_lem first port (to_unsigned cmd.irq) st elan in
    let on_board : dnp_map_can port (to_unsigned cmd.irq) (board_of cmd) st ≡ some (tt, st') =
      ap (λ b. dnp_map_can port (to_unsigned cmd.irq) (if b then adnptrm else adnpcust) st)
        is_trm816
      ∙ run in
    (
      st',
      unfold main in
          (ap (λ o. with_cmdline host dec hex o st) (parse_cmdline-render strtol prog opts nums)
            ∙ ap (λ o. with_port host cmd o st) scanned
            ∙ goes_on host cmd port st (ap (λ b. not b && not (str_eq cmd.dnp type_1520)) is_1486)
                (ap (λ b. not b && not (str_eq cmd.hw hw_custom)) is_trm816)
            ∙ root_maps host cmd port st st' is_1486 (ap (λ n. n == 0) root) on_board),
      regs,
    )

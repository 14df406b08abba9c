-- ===== src/Examples/Boards.antt =====
-- A bus with one CPC-PCI board, both of whose controllers answer as after a hardware reset.
use c4l.Common.{
  ℕ, ◌≡◌, ◌⊎◌, refl, arith, some, none, List, [], ◌∷◌, Bool, true, ◌==◌, if◌then◌else◌,
}
use c4l.Machine.{Access}
use c4l.Pci.{PciDev, Pci, enodev, pcimod_scan}
use c4l.Pci.Runs.{Sized}
use c4l.Pci.Scan.{pcimod_scan_bounds}

abbrev board : PciDev
board = record { bar0 = 0x1000; bar1 = 0x2000; irq = 9; enables = true }

abbrev memory : List Access → ℕ → ℕ
memory log addr =
    if addr == 0x2000
    then 0x55
    else if addr == 0x2004
    then 0xaa
    else if addr == 0x2008
    then 0x01
    else if addr == 0x200c
    then 0xcb
    else if addr == 0x2400
    then 0x21
    else if addr == 0x2408
    then 0x0c
    else if addr == 0x240c
    then 0xe0
    else if addr == 0x2600
    then 0x21
    else if addr == 0x2608
    then 0x0c
    else if addr == 0x260c
    then 0xe0
    else 0

abbrev four : List ℕ
four = 0 ∷ 0 ∷ 0 ∷ 0 ∷ []

abbrev bus : Pci
bus = record { control = four; base = four; io_model = four; irqs = four; log = []; env = memory }

bus-Sized : Sized memory bus
bus-Sized = record {
  controls = refl;
  bases = refl;
  models = refl;
  interrupts = refl;
  answered = refl;
}

pcimod_scan_bounds_example :
    (r : ℕ) × (st' : Pci) × (pcimod_scan (λ a. a) true (board ∷ []) bus ≡ some (r, st'))
    × Sized memory st'
    × ((r ≡ 0) ⊎ (r ≡ enodev))
pcimod_scan_bounds_example =
    pcimod_scan_bounds memory (λ a. a) (board ∷ []) bus (omega arith)
      ((λ log. refl, λ log. refl, λ log. refl), tt) bus-Sized

abbrev channels : Bool → ℕ × List ℕ × List ℕ
channels present = elim (pcimod_scan (λ a. a) present (board ∷ []) bus) [
  | none ↦ (1, [], [])
  | some (r, st) ↦ (r, st.base, st.irqs)
]

-- The scan finds both controllers.
both_found : channels true ≡ (0, 0x2400 ∷ 0x2600 ∷ 0 ∷ 0 ∷ [], 9 ∷ 9 ∷ 0 ∷ 0 ∷ [])
unfolding pcimod_scan
both_found = refl

-- ===== src/Pci.antt =====
-- util.c, for the target CPC_PCI: the search for the controllers of CPC-PCI boards. The PCI functions of the kernel are
-- arguments: the devices that `pci_find_device` gives, and the addresses that `ioremap` maps to.
pub mod Runs
pub mod Scan
use c4l.Common.{
  ℕ, zero, suc, ◌+◌, ◌-◌, ◌*◌, ◌^◌, Option, none, some, List, [], ◌∷◌, Bool, true, false, ◌==◌, ltb,
  if◌then◌else◌, length, get_elem?, set, bit_and, u8, u32, add32, ◌>>=?◌,
}
use c4l.Machine.{Access, input, output}
use c4l.Frame.{max_channels}

-- `struct pci_dev`: the two address regions, the interrupt, and whether `pci_enable_device` succeeds.
pub record PciDev : Type 0 where
  pub bar0 : ℕ
  pub bar1 : ℕ
  pub irq : ℕ
  pub enables : Bool

-- The arrays of the channels, and the accesses to mapped memory with the newest first; `env` answers the reads.
pub record Pci : Type 0 where
  pub control : List ℕ
  pub base : List ℕ
  pub io_model : List ℕ
  pub irqs : List ℕ
  pub log : List Access
  pub env : List Access → ℕ → ℕ

-- `none` is an access outside an array.
abbrev pub P : Type 0 → Type 0
P A = Pci → Option (A × Pci)

abbrev pub pure : {A : Type 0} → A → P A
pure a st = some (a, st)

infixl 5 ◌>>=◌ ◌>>◌
abbrev pub ◌>>=◌ : {A B : Type 0} → P A → (A → P B) → P B
◌>>=◌ m f st = elim (m st) [ none ↦ none | some (a, st') ↦ f a st' ]

abbrev pub ◌>>◌ : {A B : Type 0} → P A → P B → P B
m >> k = m >>= λ _. k

unfoldable pub readb : ℕ → P ℕ
readb addr st =
    let v = u8 (st.env st.log addr) in some (v, record st { log = input addr v ∷ st.log })

-- `writeb` and `writel`.
unfoldable pub write_mem : ℕ → ℕ → P (Unit {0})
write_mem v addr st = some (tt, record st { log = output addr v ∷ st.log })

-- `a[i] = v`.
abbrev pub put : List ℕ → ℕ → ℕ → Option (List ℕ)
put a i v = if ltb i (length a) then some (set a i v) else none

-- The element of `Can_pitapci_control` at `i`.
unfoldable pub control_at : ℕ → P ℕ
control_at i st = get_elem? st.control i >>=? λ v. some (v, st)

unfoldable pub set_control : ℕ → ℕ → P (Unit {0})
set_control i v st = put st.control i v >>=? λ a. some (tt, record st { control = a })

-- `Base[candev] = …; IOModel[candev] = 'm'; IRQ[candev] = …`.
unfoldable pub set_channel : ℕ → ℕ → ℕ → P (Unit {0})
set_channel i base irq st = put st.base i base >>=? λ b. put st.io_model i 109 >>=? λ m.
    put st.irqs i irq >>=? λ q. some (tt, record st { base = b; io_model = m; irqs = q })

abbrev pub answers : ℕ → ℕ → ℕ → P Bool
answers value mask addr = readb addr >>= λ v. pure (value == bit_and v mask)

-- The second read is made if the first answered.
abbrev pub and_also : P Bool → P Bool → P Bool
and_also m n = m >>= λ b. if b then n else pure false

-- How the loop goes on: with so many devices found, to its end, or to the result -ENODEV.
pub data Next : Type 0 where
  found : ℕ → Next
  stop : Next
  no_device : Next

-- The second controller of a board shares the control register of the first; there is no element before the first.
unfoldable pub share_control : ℕ → P (Unit {0})
unfolding control_at set_control
share_control zero st = none
share_control (suc n) st = (control_at n >>= set_control (suc n)) st

-- The registers after a hardware reset, by whether the mode is that of a BasicCAN controller, or after a soft reset.
abbrev pub available_by : ℕ → ℕ → Bool → P Bool
available_by ptr offset true =
    and_also (answers 0x0c 0xff (add32 ptr (2 * offset)))
      (answers 0xe0 0xff (add32 ptr (3 * offset)))
available_by ptr offset false = and_also (answers 0x00 0xff (add32 ptr (1 * offset))) (
    and_also (answers 0x34 0x37 (add32 ptr (2 * offset)))
      (answers 0x00 0xfb (add32 ptr (3 * offset))))

abbrev pub enodev : ℕ
enodev = 2 ^ 32 - 19

abbrev pub go_on : (ℕ → P ℕ) → Next → P ℕ
go_on loop (found candev) = loop candev
go_on loop stop = pure 0
go_on loop no_device = pure enodev

module _ (ioremap : ℕ → ℕ) where
  unfoldable pub reset_cpc_pci : ℕ → P (Unit {0})
  unfolding write_mem
  reset_cpc_pci address = write_mem 0x01 (ioremap address)

  unfoldable pub controller_available : ℕ → ℕ → P Bool
  unfolding readb
  controller_available address offset =
      let ptr = ioremap address in answers 0x21 0xff ptr >>= available_by ptr offset

  unfoldable pub read_signature : ℕ → P ℕ
  unfolding readb
  read_signature bar1 = do
    let sigptr = ioremap bar1
    a ← readb sigptr
    b ← readb (add32 sigptr 4)
    c ← readb (add32 sigptr 8)
    d ← readb (add32 sigptr 12)
    pure (u32 (a * 2 ^ 24 + b * 2 ^ 16 + c * 2 ^ 8 + d))

  -- A controller at `address`, after `share` for the second one of a board.
  unfoldable pub add_channel : P (Unit {0}) → PciDev → ℕ → ℕ → P Next
  unfolding set_channel
  add_channel share pdev address candev =
      if ltb max_channels candev
      then pure stop
      else share >> set_channel candev (ioremap address) pdev.irq >> pure (found (candev + 1))

  unfoldable pub second_channel : PciDev → Next → P Next
  unfolding controller_available add_channel share_control
  second_channel pdev stop = pure stop
  second_channel pdev no_device = pure no_device
  second_channel pdev (found candev) = do
    two ← controller_available (add32 pdev.bar1 0x600) 4
    if two
        then add_channel (share_control candev) pdev (add32 pdev.bar1 0x600) candev
        else pure (found candev)

  -- The board has been recognised.
  unfoldable pub scan_channels : PciDev → ℕ → P Next
  unfolding reset_cpc_pci control_at write_mem controller_available add_channel second_channel
  scan_channels pdev candev = do
    reset_cpc_pci (add32 pdev.bar1 0x400)
    reset_cpc_pci (add32 pdev.bar1 0x600)
    ctl ← control_at candev
    write_mem 0x0002_0000 (ctl + 0x0)
    one ← controller_available (add32 pdev.bar1 0x400) 4
    next ←
        if one
        then add_channel (pure tt) pdev (add32 pdev.bar1 0x400) candev
        else pure (found candev)
    second_channel pdev next

  -- The body of the loop.
  unfoldable pub scan_board : PciDev → ℕ → P Next
  unfolding write_mem set_control read_signature scan_channels
  scan_board pdev candev =
      let ptr = ioremap pdev.bar0 in
      if pdev.enables
      then (write_mem 0x0400_0000 (add32 ptr 0x1c) >>= λ _. set_control candev ptr >>= λ _.
          read_signature pdev.bar1 >>= λ signature.
          if signature == 0x55aa_01cb then scan_channels pdev candev else pure no_device)
      else pure (found candev)

  unfoldable pub scan_loop : List PciDev → ℕ → P ℕ
  unfolding scan_board
  scan_loop [] candev = pure 0
  scan_loop (pdev ∷ devs) candev = scan_board pdev candev >>= go_on (scan_loop devs)

  unfoldable pub pcimod_scan : Bool → List PciDev → P ℕ
  unfolding scan_loop
  pcimod_scan present devs = if present then scan_loop devs 0 else pure enodev

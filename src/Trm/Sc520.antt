-- ===== src/Trm/Sc520.antt =====
-- trm816/adnpfunc.c: the mapping of the controller by the programmable address regions of the SC520, in mapped memory.
-- The replies of `open` and `mmap` are arguments; a failing `close` is only reported.
use c4l.Common.{
  ℕ, ◌+◌, ◌%◌, Option, none, some, List, [], ◌∷◌, Bool, false, ◌&&◌, ◌==◌, if◌then◌else◌, bit_or,
  u32,
}

-- Whether "/dev/mem" could be opened, and mapped, and the user.
pub record Host : Type 0 where
  pub opens_mem : Bool
  pub maps_mem : Bool
  pub uid : ℕ

-- `XADNPTRM` and `XADNPCUST`.
pub data Xboard : Type 0 where
  xadnptrm : Xboard
  xadnpcust : Xboard

-- pMapmemory: whether the memory is mapped.
unfoldable pub map_memory : Host → ℕ → ℕ → Bool
map_memory host phy_addr phy_length =
    if phy_addr % 4096 == 0
    then (if phy_length % 4096 == 0 then host.opens_mem && host.maps_mem else false)
    else false

-- The offsets of PAR0 and PAR1, and a write to an offset.
abbrev pub par0 : ℕ
par0 = 0x88

abbrev pub par1 : ℕ
par1 = 0x8c

abbrev pub MemWrite : Type 0
MemWrite = ℕ × ℕ

unfoldable pub region_writes : ℕ → Xboard → List MemWrite
region_writes base xadnptrm = (par0, bit_or 0x2c01_0000 base) ∷ []
region_writes base xadnpcust =
    (par0, bit_or 0x2800_0000 base) ∷ (par1, bit_or 0x2c00_0000 (u32 (base + 1))) ∷ []

-- The writes in their order; `none` is `exit(1)`.
unfoldable pub adnp1520_map_can : Host → ℕ → Xboard → Option (List MemWrite)
unfolding map_memory region_writes
adnp1520_map_can host base board =
    if map_memory host 0xfffe_f000 0x1000 then some (region_writes base board) else none

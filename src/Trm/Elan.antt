-- ===== src/Trm/Elan.antt =====
-- trm816/adnpfunc.c: the mapping of the controller by the configuration registers of
-- the Elan SC4xx. The mapping of the SC520, which writes to mapped memory, is in Trm/Sc520.
pub mod Registers
use c4l.Common.{ℕ, ◌/◌, ◌^◌, ◌==◌, if◌then◌else◌, bit_and, bit_or, u8}
use c4l.Machine.{M, pure, ◌>>=◌, ◌>>◌, inb, outb}

abbrev pub index_reg : ℕ
index_reg = 0x22

abbrev pub data_reg : ℕ
data_reg = 0x23

-- `ADNPTRM` and `ADNPCUST`, the two hardware types that dnp_map_can knows.
pub data Board : Type 0 where
  adnptrm : Board
  adnpcust : Board

-- The arguments are `unsigned char`s.
unfoldable pub write_port : ℕ → ℕ → M (Unit {0})
unfolding outb
write_port index v = outb (u8 index) index_reg >>= λ _. outb (u8 v) data_reg

unfoldable pub read_port : ℕ → M ℕ
unfolding outb inb
read_port index = outb (u8 index) index_reg >>= λ _. inb data_reg

-- `write_port(index, …)` of a value made of `read_port(index)`.
unfoldable pub change : ℕ → (ℕ → ℕ) → M (Unit {0})
unfolding read_port write_port
change index f = read_port index >>= λ old. write_port index (f old)

-- An interrupt is mapped if none is.
unfoldable pub map_irq : ℕ → M (Unit {0})
unfolding read_port change
map_irq irq = do
  now ← read_port 0xd7
  if bit_and now 0x0f == 0 then change 0xd7 (λ old. bit_or (bit_and old 0xf0) irq) else pure tt

-- The chip select GP_CSB, decoded at `base` and led to the pin GPIO_CS1.
unfoldable pub map_base : ℕ → M (Unit {0})
unfolding write_port change
map_base base = do
  write_port 0xa6 0xff
  change 0xa0 (λ pins. bit_or pins 0x0c)
  write_port 0xb6 (bit_and base 0xff)
  write_port 0xb7 (bit_or (base / 2 ^ 8) 0x38)
  change 0xb8 (λ quals. bit_or (bit_and quals 0x0f) 0x30)
  change 0xb2 (λ select. bit_or (bit_and select 0x0f) 0x10)
  write_port 0xa6 0x00

unfoldable pub map_board : ℕ → Board → M (Unit {0})
unfolding map_base
map_board base adnptrm = map_base base
map_board base adnpcust = pure tt

unfoldable pub dnp_map_can : ℕ → ℕ → Board → M (Unit {0})
unfolding map_irq map_board
dnp_map_can base irq board = map_irq irq >>= λ _. map_board base board

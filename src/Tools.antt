-- ===== src/Tools.antt =====
-- The programs of examples that send and receive messages: can_send.c and can_verify.c, and how they, baud.c and
-- acceptance.c set the bit rate and the filter. A machine is little-endian, and the
-- programs have 32-bit `long`s, as the driver has. What they print for a reader, but for the complaints, is not modelled.
pub mod Bytes
pub mod Sequence
pub mod Verify
pub mod Stream
pub mod Accepts
pub mod Arrives
pub mod Detects
pub mod Paused
pub mod Drive
pub mod Test10
pub mod Watch
pub mod Bus
pub mod Settings
pub mod Bursts
pub mod Single
pub mod Load

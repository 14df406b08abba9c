-- ===== src/Message.antt =====
-- can4linux.h: the message that the driver passes between the bus and the user, and the flag bits.
use c4l.Common.{ℕ, List, replicate}

-- `canmsg_t`. `flags`, `cob` and `id` are 32-bit patterns, `length` a 16-bit one (a `short`), and
-- the seconds and microseconds of the time stamp 32-bit patterns (a `long` of a 32-bit kernel).
pub record Msg : Type 0 where
  pub flags : ℕ
  pub cob : ℕ
  pub id : ℕ
  pub tv_sec : ℕ
  pub tv_usec : ℕ
  pub length : ℕ
  pub bytes : List ℕ

abbrev pub can_msg_length : ℕ
can_msg_length = 8

abbrev pub msg_rtr : ℕ
msg_rtr = 1

abbrev pub msg_ovr : ℕ
msg_ovr = 2

abbrev pub msg_ext : ℕ
msg_ext = 4

abbrev pub msg_passive : ℕ
msg_passive = 16

abbrev pub msg_busoff : ℕ
msg_busoff = 32

abbrev pub msg_bovr : ℕ
msg_bovr = 128

-- A message of zeros, for a slot that is read outside its array.
abbrev pub zero_msg : Msg
zero_msg = record {
  flags = 0;
  cob = 0;
  id = 0;
  tv_sec = 0;
  tv_usec = 0;
  length = 0;
  bytes = replicate can_msg_length 0;
}

-- ===== src/Tools/Single.antt =====
-- can_send.c: the message of the command line, and the loops that write one message at a time: that of main, and test12.
pub mod Counts
pub mod Once
use c4l.Common.{
  ℕ, zero, suc, ◌+◌, ◌*◌, ◌/◌, ◌%◌, ◌^◌, List, [], ◌∷◌, ◌++◌, Option, none, some, Bool, leb, ◌==◌,
  if◌then◌else◌, add32, bit_or, replicate, length, slt32, u8, u32, map, take, drop,
}
use c4l.Message.{Msg, msg_rtr, can_msg_length}
use c4l.Machine.{Result, ok, err}
use c4l.Tools.Drive.{Next, goes_on, ends}
use c4l.Tools.Bursts.{ext_if}

abbrev pub default_message : Msg
default_message = record {
  flags = 0;
  cob = 0;
  id = 100;
  tv_sec = 0;
  tv_usec = 0;
  length = 8;
  bytes = 0x55 ∷ 2 ∷ 3 ∷ 4 ∷ 5 ∷ 6 ∷ 7 ∷ 0xaa ∷ [];
}

abbrev with_flags : Bool → Bool → Msg → Msg
with_flags rtr extd m = record m {
  flags = ext_if extd (if rtr then bit_or m.flags msg_rtr else m.flags);
}

-- The message by the arguments after the options: the id, and the data. `strtol` is that of the C library, a 32-bit
-- pattern. More bytes than `data` has are written past it, which is `none`.
unfoldable pub message_of : {A : Type 0} → (A → ℕ) → List A → Bool → Bool → Option Msg
message_of strtol [] rtr extd = some (with_flags rtr extd default_message)
message_of strtol (a ∷ bytes) rtr extd =
    if leb (length bytes) can_msg_length
    then some (
        with_flags rtr extd (record default_message {
          id = strtol a;
          length = length bytes;
          bytes =
              map (λ b. u8 (strtol b)) bytes ++ drop (length bytes) (replicate can_msg_length 0);
        }))
    else none

-- The loop of main, by the id of the message.
abbrev pub with_id : Msg → ℕ → List Msg
with_id m id = record m { id = id } ∷ []

abbrev pub while_default : ℕ → ℕ → Next ℕ
while_default sleeptime id = if slt32 0 sleeptime then goes_on id else ends id

abbrev pub after_default : ℕ → ℕ → ℕ → Result → Next ℕ
after_default increment sleeptime id (err e) = while_default sleeptime id
after_default increment sleeptime id (ok zero) = while_default sleeptime id
after_default increment sleeptime id (ok (suc n)) = while_default sleeptime (add32 id increment)

-- test12, by its counter: the data are the four bytes of the counter.
abbrev pub with_counter : Msg → ℕ → List Msg
with_counter m test_count =
    record m {
      cob = 0;
      flags = 0;
      length = 4;
      bytes =
          test_count % 0x100
          ∷ test_count / 2 ^ 8 % 0x100
          ∷ test_count / 2 ^ 16 % 0x100
          ∷ test_count / 2 ^ 24 % 0x100
          ∷ 0
          ∷ 0
          ∷ 0
          ∷ 0
          ∷ [];
    }
    ∷ []

-- The message is written until it is taken.
abbrev pub after_counter : ℕ → ℕ → Result → Next ℕ
after_counter test_count_soll test_count (err e) = goes_on test_count
after_counter test_count_soll test_count (ok n) =
    if n == 1
    then if add32 test_count 1 == test_count_soll
      then ends (add32 test_count 1)
      else goes_on (add32 test_count 1)
    else goes_on test_count

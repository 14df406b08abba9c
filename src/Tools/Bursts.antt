-- ===== src/Tools/Bursts.antt =====
-- can_send.c: test1, test2 and test3, which write a burst of messages again and again.
pub mod Counters
pub mod Tests
use c4l.Common.{
  ℕ, zero, suc, ◌+◌, ◌^◌, ◌%◌, List, [], ◌∷◌, ◌++◌, Bool, ◌==◌, if◌then◌else◌, add32, drop, bit_or,
  slt32,
}
use c4l.Message.{Msg, msg_rtr, msg_ext}
use c4l.Machine.{Result, ok, err}
use c4l.Tools.Bytes.{le_bytes}
use c4l.Tools.Drive.{Next, goes_on, ends}

abbrev pub ext_if : Bool → ℕ → ℕ
ext_if extd flags = if extd then bit_or flags msg_ext else flags

abbrev up : List ℕ
up = 0x55 ∷ 2 ∷ 3 ∷ 4 ∷ 5 ∷ 6 ∷ 7 ∷ 0xaa ∷ []

abbrev down : List ℕ
down = 0xaa ∷ 7 ∷ 6 ∷ 5 ∷ 4 ∷ 3 ∷ 2 ∷ 0x55 ∷ []

-- An element of the array `tm` on the stack, where `was` is what stood there: the time stamp, and the data of a message
-- without any, is not set.
abbrev pub element : Msg → Bool → ℕ → ℕ → ℕ → List ℕ → Msg
element was extd id flags length bytes = record was {
  id = id;
  cob = 0;
  length = length;
  flags = ext_if extd flags;
  bytes = bytes;
}

module _ (stack : ℕ → Msg) (id : ℕ) (extd : Bool) where
  abbrev tm : ℕ → ℕ → ℕ → ℕ → List ℕ → Msg
  tm i number flags length bytes = element (stack i) extd number flags length bytes

  -- The bytes of the counter, and what stood after them.
  abbrev counted_bytes : ℕ → List ℕ
  counted_bytes n = le_bytes 4 n ++ drop 4 (stack 4).bytes

  unfoldable pub burst1 : List Msg
  burst1 =
      tm 0 100 0 8 up
      ∷ tm 1 id msg_rtr 0 (stack 1).bytes
      ∷ tm 2 id msg_rtr 1 (stack 2).bytes
      ∷ tm 3 id msg_rtr 2 (stack 3).bytes
      ∷ []

  -- The burst of test2 with the counter `n`.
  unfoldable pub burst2 : ℕ → List Msg
  unfolding le_bytes
  burst2 n =
      tm 0 id 0 8 up
      ∷ tm 1 id 0 8 down
      ∷ tm 2 id 0 0 (stack 2).bytes
      ∷ tm 3 id 0 8 up
      ∷ tm 4 id 0 4 (counted_bytes n)
      ∷ []

  -- That of test3.
  unfoldable pub burst3 : ℕ → List Msg
  unfolding le_bytes
  burst3 n =
      tm 0 id 0 8 up
      ∷ tm 1 (add32 id 0x10) 0 8 down
      ∷ tm 2 (add32 id 0x20) 0 0 (stack 2).bytes
      ∷ tm 3 (add32 id 0x30) 0 8 up
      ∷ tm 4 (add32 id 0x40) 0 4 (counted_bytes n)
      ∷ []

-- The variables: the counter in the last message, and the bursts so far.
pub record Burst : Type 0 where
  pub shown : ℕ
  pub cnt : ℕ
  pub test_count : ℕ

-- The counter is 0 in the first burst.
abbrev pub first_burst : Burst
first_burst = record { shown = 0; cnt = 1; test_count = 0 }

-- The condition of the loops, where a `continue` goes too.
abbrev pub while_sleeping : ℕ → Burst → Next Burst
while_sleeping sleeptime s = if slt32 0 sleeptime then goes_on s else ends s

abbrev pub count_burst : ℕ → ℕ → Burst → Next Burst
count_burst test_count_soll sleeptime s =
    if add32 s.test_count 1 == test_count_soll
    then ends (record s { test_count = add32 s.test_count 1 })
    else while_sleeping sleeptime (record s { test_count = add32 s.test_count 1 })

-- After a write of test1.
abbrev pub after_burst1 : ℕ → ℕ → Burst → Result → Next Burst
after_burst1 test_count_soll sleeptime s (err e) = while_sleeping sleeptime s
after_burst1 test_count_soll sleeptime s (ok zero) = while_sleeping sleeptime s
after_burst1 test_count_soll sleeptime s (ok (suc n)) = count_burst test_count_soll sleeptime s

-- After a write of test2 and test3: the next counter is put into the last message.
abbrev pub after_burst : ℕ → ℕ → Burst → Result → Next Burst
after_burst test_count_soll sleeptime s (err e) = while_sleeping sleeptime s
after_burst test_count_soll sleeptime s (ok zero) = while_sleeping sleeptime s
after_burst test_count_soll sleeptime s (ok (suc n)) =
    count_burst test_count_soll sleeptime (record s { shown = s.cnt; cnt = add32 s.cnt 1 })

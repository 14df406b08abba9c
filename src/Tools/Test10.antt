-- ===== src/Tools/Test10.antt =====
-- can_send.c: test10, which sends the sequences to the driver.
pub mod Stretch
pub mod Sends
pub mod Checked
use c4l.Common.{ℕ, ◌+◌, ◌-◌, List, Bool, ◌==◌, if◌then◌else◌, add32, take, drop}
use c4l.Message.{Msg}
use c4l.Machine.{Result, ok, err}
use c4l.Tools.Sequence.{seqn, first_seq, update_seq}
use c4l.Tools.Drive.{Next, goes_on, ends}

-- The variables of test10: the array, the rest of it that is to be sent and its place, and the sequences so far.
pub record Sender : Type 0 where
  pub tm : List Msg
  pub seq : ℕ
  pub start : ℕ
  pub test_count : ℕ

abbrev pub first_round : Bool → Sender
first_round extd = record { tm = first_seq extd; seq = seqn; start = 0; test_count = 0 }

-- The buffer of the write, `&tm[start]` with `seq` messages.
abbrev pub rest_of_seq : Sender → List Msg
rest_of_seq s = take s.seq (drop s.start s.tm)

-- After the last message of a sequence.
abbrev pub end_of_seq : Bool → ℕ → Sender → Next Sender
end_of_seq extd test_count_soll s =
    if add32 s.test_count 1 == test_count_soll
    then ends (record s { test_count = add32 s.test_count 1 })
    else goes_on (record {
      tm = update_seq extd s.tm;
      seq = seqn;
      start = 0;
      test_count = add32 s.test_count 1;
    })

-- After a write, until the next one. A failed write is the end of the program.
abbrev pub after_write : Bool → ℕ → Sender → Result → Next Sender
after_write extd test_count_soll s (err e) = ends s
after_write extd test_count_soll s (ok n) =
    if n == 0
    then goes_on s
    else if s.seq - n == 0
    then end_of_seq extd test_count_soll (record s { seq = s.seq - n; start = s.start + n })
    else goes_on (record s { seq = s.seq - n; start = s.start + n })

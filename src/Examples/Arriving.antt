-- ===== src/Examples/Arriving.antt =====
-- test 10 sends its first message from one device, and can_verify reads it from another.
use c4l.Common.{
  ℕ, ◌≡◌, refl, arith, Option, none, some, List, [], ◌∷◌, inl, ◌++◌, false, ◌&&◌, ◌==◌, ltb,
  if◌then◌else◌,
}
use c4l.Message.{Msg, zero_msg}
use c4l.Machine.{Access, St}
use c4l.Chip.Requests.{requests}
use c4l.Chip.Reads.{reads}
use c4l.Frame.{Msginf, readcanmsg, read_id, read_bytes}
use c4l.File.{can_write, can_read, can_select}
use c4l.Isr.{can_interrupt}
use c4l.Session.{Call, interrupt, session}
use c4l.Session.Received.{Received, unread}
use c4l.Examples.{clock, silent, ready}
use c4l.Examples.Session.{ready-Running}
use c4l.Examples.Sending.{linux_bits, pollin_set, linux_Tells}
use c4l.Tools.Verify.{Verifier, Complaint, fresh, verify_all}
use c4l.Tools.Drive.{Next, goes_on, ends, drive}
use c4l.Tools.Sequence.{first_seq, update_seq}
use c4l.Tools.Test10.{Sender, first_round, rest_of_seq, after_write}
use c4l.Tools.Watch.{Outcome, watch}
use c4l.Tools.Bus.{Comes, test10_arrives}

-- A controller that tells once of a received frame, one of zeros.
abbrev frame_once : List Access → ℕ → ℕ
frame_once log port = if port == 643 && ltb (reads 643 log) 1 then 1 else 0

abbrev one_pause : List (List Call)
one_pause = [] ∷ []

abbrev one_wait : List (List Call)
one_wait = (interrupt 2 ∷ []) ∷ []

abbrev sending_run : Option ((List Msg × Next Sender) × St)
sending_run =
    drive rest_of_seq (after_write false 1) clock one_pause (first_round false) (ready silent)

abbrev reading_run : Option (Outcome × St)
reading_run = watch clock linux_bits pollin_set false one_wait fresh (ready frame_once)

abbrev end_of : {A : Type 0} → Option (A × St) → St
end_of none = ready silent
end_of (some (a, s)) = s

abbrev sent_by : Option ((List Msg × Next Sender) × St) → List Msg × Next Sender
sent_by none = ([], ends (first_round false))
sent_by (some (p, s)) = p

abbrev read_by : Option (Outcome × St) → List Msg × List Complaint × Verifier
read_by (some ((got, out, goes_on v), s)) = (got, out, v)
read_by _ = ([], [], fresh)

sends : sending_run ≡ some (sent_by sending_run, end_of sending_run)
unfolding drive session can_write first_seq update_seq
sends = refl

reads_one :
    reading_run
    ≡ some (
      ((read_by reading_run).0, (read_by reading_run).1, goes_on (read_by reading_run).2),
      end_of reading_run,
    )
unfolding watch session can_interrupt can_select can_read reads read_id read_bytes verify_all
reads_one = refl

abbrev no_stamp : Msginf
no_stamp = record { flags = 0; minor = 0; tv_sec = 0; tv_usec = 0 }

abbrev frame_read : Option (Msg × St)
frame_read = readcanmsg (no_stamp) zero_msg (ready frame_once)

abbrev after_frame : St
after_frame = end_of frame_read

made : Received (read_by reading_run).0 (ready frame_once) (end_of reading_run)
unfolding watch session can_interrupt can_select can_read reads read_id read_bytes verify_all
made = (
  ready frame_once,
  after_frame,
  record { env_same = refl; base_same = refl; reads_more = λ port. omega arith },
  (no_stamp, zero_msg, inl refl),
  record { env_same = refl; base_same = refl; reads_more = λ port. ground arith },
)

-- The frame that was requested, and that was read.
abbrev frame_logs : List (List Access)
frame_logs = requests 640 (end_of sending_run).log

read_all :
    unread (ready frame_once) ++ (read_by reading_run).0
    ≡ (read_by reading_run).0 ++ unread (end_of reading_run)
unfolding watch session can_interrupt can_select can_read reads read_id read_bytes verify_all
read_all = refl

transferred :
    Comes 640 frame_logs (read_by reading_run).0 (ready frame_once) (end_of reading_run) made
unfolding drive session can_write first_seq update_seq requests watch can_interrupt can_select
    can_read reads read_id read_bytes verify_all made
transferred = (
  (
    no_stamp,
    zero_msg,
    (λ r. 0),
    refl,
    refl,
    (λ log r since lo hi. ground arith),
    (λ r v lo hi e. ground arith),
  ),
  tt,
)

test10_arrives_example : (read_by reading_run).1 ≡ []
unfolding requests
test10_arrives_example =
    test10_arrives clock clock false 1 one_pause one_wait linux_bits pollin_set (ready silent)
      (end_of sending_run) (ready frame_once) (end_of reading_run) (sent_by sending_run).0
      (read_by reading_run).0 (read_by reading_run).0 (sent_by sending_run).1 frame_logs
      (read_by reading_run).1 (read_by reading_run).2 made (omega arith) (omega arith) (tt, tt, tt)
      (ready-Running silent) refl sends refl linux_Tells (tt, (tt, tt), tt)
      (ready-Running frame_once) reads_one refl read_all transferred

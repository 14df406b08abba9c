-- ===== src/Examples/Sending.antt =====
-- Runs of the test programs over the driver, with interrupts between the writes.
use c4l.Common.{
  slt32, false, ℕ, ◌+◌, ◌*◌, ◌≤◌, ◌≡◌, refl, arith, some, List, [], ◌∷◌, ◌++◌, Bool, true, false,
  length, u32, has,
}
use c4l.Message.{Msg, zero_msg}
use c4l.Machine.{Access, St}
use c4l.Register
use c4l.Chip.Requests.{requests}
use c4l.Chip.Shadow.{written, word_at}
use c4l.Chip.Timing.{TimingOf}
use c4l.File.{PollBits}
use c4l.Examples.{clock, interrupting, ready}
use c4l.Examples.Session.{ready-Running, talking}
use c4l.Session.{Call, interrupt, timer}
use c4l.Session.Running.{Running, Loaded, waiting}
use c4l.Session.Received.{Received, unread}
use c4l.Tools.Stream.{nth_msg}
use c4l.Tools.Accepts.{MatchFrom}
use c4l.Tools.Verify.{Verifier, Complaint, fresh, verify_all}
use c4l.Tools.Detects.{verify_all_iff}
use c4l.Tools.Drive.{HasEnded, Next, goes_on, drive, ArePauses}
use c4l.Tools.Test10.{Sender, first_round, rest_of_seq, after_write}
use c4l.Tools.Test10.Sends.{Amount}
use c4l.Tools.Test10.Stretch.{stretch}
use c4l.Tools.Test10.Checked.{test10_verified}
use c4l.Tools.Watch.{watch}
use c4l.Tools.Watch.Parts.{Tells, AreWaits}
use c4l.Tools.Watch.Rounds.{watch_complains}
use c4l.Tools.Settings.{set_bitrate, set_accmask, set_acccode}
use c4l.Tools.Settings.Changes.{RunsWith, SetsTiming, set_bitrate_lem, set_accmask_lem}
use c4l.Tools.Bursts.{after_burst1, burst1, burst3, burst2, after_burst}
use c4l.Tools.Bursts.Counters.{IsBefore, Counts}
use c4l.Tools.Bursts.Tests.{BurstRun, drive_bursts}
use c4l.Tools.Single.{with_id, after_default, default_message}
use c4l.Tools.Single.Once.{Increasing, drive_default}
use c4l.Tools.Load.{messages_per_cycle, messages_per_cycle_bound}

abbrev pauses : List (List Call)
pauses = (interrupt 2 ∷ timer ∷ []) ∷ [] ∷ (interrupt 2 ∷ []) ∷ []

abbrev pub linux_bits : PollBits
linux_bits = record { readable = 0x41; writable = 0x104 }

-- `select` waits for POLLIN and the like.
abbrev pub pollin_set : ℕ → Bool
pollin_set mask = has mask 0xd9

pub linux_Tells : Tells linux_bits pollin_set
linux_Tells = record { readable_only = refl; both = refl; neither = refl; writable_only = refl }

pauses-ArePauses : ArePauses pauses
pauses-ArePauses = (tt, (tt, (tt, tt)), (tt, tt, (tt, (tt, tt), tt)))

pauses-AreWaits : AreWaits pauses
pauses-AreWaits = (tt, (tt, (tt, tt)), (tt, tt, (tt, (tt, tt), tt)))

test10_verified_example :
    (ms : List Msg) × (q : Next Sender) × (st' : St) × (drive rest_of_seq
        (after_write false 2)
        clock
        pauses
        (first_round false)
        (ready interrupting)
      ≡ some ((ms, q), st'))
    × ((logs : List (List Access)) × (sent : List Msg) × (requests 640 st'.log
          ≡ requests 640 [] ++ logs)
        × Loaded 640 logs sent
        × (sent ≡ stretch false 0 (length sent))
        × ((verify_all false sent fresh).1 ≡ [])
        × Amount 2 (length sent + length (waiting st')) q)
test10_verified_example =
    test10_verified clock false 2 pauses (ready interrupting) (omega arith) (omega arith)
      pauses-ArePauses (ready-Running interrupting) refl

watch_complains_example :
    (got : List Msg) × (out : List Complaint) × (v : Verifier) × (st' : St) × (watch clock
        linux_bits pollin_set false pauses fresh
        (ready talking)
      ≡ some ((got, out, goes_on v), st'))
    × ((received : List Msg) × Received received (ready talking) st'
        × (unread (ready talking) ++ received ≡ got ++ unread st'))
    × (MatchFrom false 0 got → out ≡ [])
    × (out ≡ [] → MatchFrom false 0 got)
watch_complains_example =
    watch_complains clock linux_bits pollin_set false pauses (ready talking) linux_Tells
      pauses-AreWaits (ready-Running talking)

abbrev three : List Msg
three = nth_msg true 0 ∷ nth_msg true 1 ∷ nth_msg true 3 ∷ []

verify_all_iff_example :
    (MatchFrom true 0 three → (verify_all true three fresh).1 ≡ [])
    × ((verify_all true three fresh).1 ≡ [] → MatchFrom true 0 three)
verify_all_iff_example = verify_all_iff true three

set_bitrate_lem_example :
    (st1 : St) × (st2 : St) × (st' : St) × (t0 : ℕ) × (t1 : ℕ) × (set_bitrate 7 250
        (ready interrupting)
      ≡ some (0, st'))
    × SetsTiming 250 7 (ready interrupting) st1 st2
    × (written st'.log (640 + Register.cantim0) ≡ some t0)
    × (written st'.log (640 + Register.cantim1) ≡ some t1)
    × TimingOf 250 t0 t1
    × RunsWith (record (ready interrupting).vars { baud = 250 }) (ready interrupting) st'
set_bitrate_lem_example = set_bitrate_lem 7 250 (ready interrupting)

set_accmask_lem_example :
    ((st' : St) × (set_accmask 0x24600000 0x1fffff (ready interrupting) ≡ some (0, st'))
      × (word_at st'.log (640 + Register.frameinfo) ≡ some (u32 0x24600000))
      × (word_at st'.log (640 + Register.canid4) ≡ some (u32 0x1fffff))
      × RunsWith
          (record (ready interrupting).vars { acc_code = 0x24600000; acc_mask = 0x1fffff })
          (ready interrupting)
          st')
    × ((st' : St) × (set_acccode 7 0x24600000 (ready interrupting) ≡ some (0, st'))
        × (word_at st'.log (640 + Register.frameinfo) ≡ some (u32 0x24600000))
        × (word_at st'.log (640 + Register.canid4) ≡ some (u32 (ready interrupting).vars.acc_mask))
        × RunsWith
            (record (ready interrupting).vars { acc_code = 0x24600000 })
            (ready interrupting)
            st')
set_accmask_lem_example = set_accmask_lem 7 0x24600000 0x1fffff (ready interrupting)

-- What the stack holds before test2.
abbrev junk : ℕ → Msg
junk i = record zero_msg { length = i; bytes = 9 ∷ 9 ∷ 9 ∷ 9 ∷ 9 ∷ 9 ∷ 9 ∷ 9 ∷ [] }

drive_bursts_example :
    BurstRun Counts
      (λ k. burst1 junk 100 false)
      (λ s. burst1 junk 100 false)
      (after_burst1 2 1000)
      2
      1000
      clock
      pauses
      (ready interrupting)
    × BurstRun IsBefore
        (burst2 junk 100 false)
        (λ s. burst2 junk 100 false s.shown)
        (after_burst 2 1000)
        2
        1000
        clock
        pauses
        (ready interrupting)
    × BurstRun IsBefore
        (burst3 junk 100 false)
        (λ s. burst3 junk 100 false s.shown)
        (after_burst 2 1000)
        2
        1000
        clock
        pauses
        (ready interrupting)
drive_bursts_example =
    drive_bursts junk 100 false 2 1000 clock pauses (ready interrupting) (omega arith) (omega arith)
      pauses-ArePauses (ready-Running interrupting)

drive_default_example :
    (ms : List Msg) × (q : Next ℕ) × (st' : St) × (drive
        (with_id default_message)
        (after_default 1 1000)
        clock
        pauses
        100
        (ready interrupting)
      ≡ some ((ms, q), st'))
    × Running st'
    × Increasing default_message 1 1000 100 ms q
    × (slt32 0 1000 ≡ false → HasEnded pauses q)
drive_default_example =
    drive_default default_message 1 1000 clock pauses (ready interrupting) pauses-ArePauses
      (ready-Running interrupting)

messages_per_cycle_bound_example :
    (n : ℕ) × (messages_per_cycle 125 50 ≡ some n) × (n * 120 * 100 ≤ 20 * 125 * 50)
messages_per_cycle_bound_example = messages_per_cycle_bound 125 50 (omega arith) refl (omega arith)

-- ===== src/Examples/Session.antt =====
-- Calls of an open device without messages: two frames are written, the first is sent at once and the second by an interrupt,
-- or a frame comes in, and is read.
use c4l.Chip.Reads.{reads}
use c4l.Isr.{can_interrupt, dlyworker}
use c4l.Frame.{read_id, read_bytes}
use c4l.File.{can_write, can_read}
use c4l.Common.{
  Option, none, length, ℕ, if◌then◌else◌, ltb, ◌≡◌, ◌≢◌, ◌≤◌, take, refl, arith, some, List, [],
  ◌∷◌, ◌++◌, map,
}
use c4l.Message.{Msg}
use c4l.Machine.{Access, St}
use c4l.Chip.Requests.{requests}
use c4l.Isr.Safe.{IsOpen}
use c4l.Isr.Transmit.{kept}
use c4l.Device.Ioctl.{config, can_ioctl}
use c4l.Machine.{◌>>=◌}
use c4l.Device.{can_open}
use c4l.Frame.Timing.{HasTimer}
use c4l.Session.Life.{open-session_in_order}
use c4l.Examples.{
  drained, kernel, kernel-Grants, present, rx_mem, tx_mem, clock, hello, later, interrupting, ready,
  ready-IsOpen,
}
use c4l.Session.{Call, write, read, ioctl, interrupt, timer, session}
use c4l.Session.Within.{Gaps, messages, write_within}
use c4l.Session.Within.Steps.{write_within_in_order}
use c4l.Session.Running.{Loaded, Moves, Running, waiting}
use c4l.Session.Received.{Received, unread}
use c4l.Session.Order.{session_in_order, session_reads_in_order, session-Moves}

abbrev calls : List Call
calls = write (hello ∷ later ∷ []) ∷ interrupt 2 ∷ timer ∷ ioctl (config 3 250 0) ∷ read 1 ∷ []

-- A controller that tells of a sent message and of a received one at the first read of its interrupt register.
abbrev pub talking : List Access → ℕ → ℕ
talking log port = if ltb (reads 643 log) 1 then 3 else 0

ready-HasTimer : (env : List Access → ℕ → ℕ) → HasTimer (ready env)
ready-HasTimer env = (refl, (λ i e. absurd (cc)), λ e. omega arith)

pub ready-Running : (env : List Access → ℕ → ℕ) → Running (ready env)
ready-Running env = record {
  opened = ready-IsOpen env;
  empty = λ is ne. refl;
  moves = λ is e. absurd (omega (arith, e));
  timer = ready-HasTimer env;
}

session_in_order_example :
    (ms : List Msg) × (got : List Msg) × (st' : St) × (session clock calls (ready interrupting)
      ≡ some ((ms, got), st'))
    × ((logs : List (List Access)) × (sent : List Msg) × (requests 640 st'.log
          ≡ requests 640 [] ++ logs)
        × Loaded 640 logs sent
        × (map kept (waiting (ready interrupting) ++ ms) ≡ sent ++ map kept (waiting st')))
session_in_order_example =
    session_in_order clock calls (ready interrupting) (ready-Running interrupting)
      (λ e. omega (arith, e), tt)

session_reads_in_order_example :
    (ms : List Msg) × (got : List Msg) × (st' : St) × (session clock calls (ready talking)
      ≡ some ((ms, got), st'))
    × ((received : List Msg) × Received received (ready talking) st'
        × (unread (ready talking) ++ received ≡ got ++ unread st'))
session_reads_in_order_example =
    session_reads_in_order clock calls (ready talking) (ready-Running talking)
      (λ e. omega (arith, e), tt)

session-Moves_example :
    (ms : List Msg) × (got : List Msg) × (st' : St) × (session clock calls (ready interrupting)
      ≡ some ((ms, got), st'))
    × IsOpen st'
    × (waiting st' ≢ [] → Moves st')
session-Moves_example =
    session-Moves clock calls (ready interrupting) (ready-Running interrupting)
      (λ e. omega (arith, e), tt)

open-session_in_order_example :
    (ms : List Msg) × (got : List Msg) × (st' : St) × ((can_open kernel >>= λ _.
    session clock calls)
        (ready present)
      ≡ some ((ms, got), st'))
    × ((logs : List (List Access)) × (sent : List Msg) × (requests 640 st'.log
          ≡ requests 640 [] ++ logs)
        × Loaded 640 logs sent
        × (map kept ms ≡ sent ++ map kept (waiting st')))
open-session_in_order_example =
    open-session_in_order kernel rx_mem tx_mem clock calls (ready present) kernel-Grants
      (omega arith) (λ e. omega (arith, e)) (λ e. omega (arith, e)) (λ e. omega (arith, e))
      (drained 2048 rx_mem) (drained 128 tx_mem) (λ log e. omega (arith, e))
      (ready-HasTimer present) (λ e. omega (arith, e), tt)

-- What comes between the steps of the write: a message has a delay, and the timer and the interrupt come at once.
abbrev steps : List (Msg × Gaps)
steps =
    (
      hello,
      record {
        after_produce = interrupt 1 ∷ [];
        after_test = timer ∷ [];
        after_mark = interrupt 2 ∷ [];
        at_end = read 1 ∷ [];
      },
    )
    ∷ (
      later,
      record {
        after_produce = interrupt 2 ∷ [];
        after_test = [];
        after_mark = timer ∷ [];
        at_end = interrupt 1 ∷ timer ∷ [];
      },
    )
    ∷ []

write_within_in_order_example :
    (n : ℕ) × (st' : St) × (write_within clock steps (ready interrupting) ≡ some (n, st'))
    × (n ≤ length (messages steps))
    × ((logs : List (List Access)) × (sent : List Msg) × (requests 640 st'.log
          ≡ requests 640 [] ++ logs)
        × Loaded 640 logs sent
        × (map kept (waiting (ready interrupting) ++ take n (messages steps))
            ≡ sent ++ map kept (waiting st')))
    × IsOpen st'
    × (waiting st' ≢ [] → Moves st')
write_within_in_order_example =
    write_within_in_order clock steps (ready interrupting) (ready-Running interrupting) (
      ((tt, (tt, tt)), (tt, (tt, tt)), (tt, (tt, tt)), (tt, (tt, tt))),
      (((tt, (tt, tt)), (tt, tt), (tt, (tt, tt)), (tt, (tt, (tt, tt)))), tt),
    )

-- The frame comes in, and is read.
given : Option ((List Msg × List Msg) × St) → ℕ
given none = 0
given (some ((ms, got), st')) = length got

session_gives : given (session clock calls (ready talking)) ≡ 1
unfolding given session can_write can_interrupt reads read_id read_bytes dlyworker can_ioctl
    can_read
session_gives = refl

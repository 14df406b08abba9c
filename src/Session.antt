-- ===== src/Session.antt =====
-- The driver's calls one after another: the calls of users, of the controller's interrupt and of the device's timer, on one
-- open device.
pub mod Running
pub mod Turns
pub mod Received
pub mod Live
pub mod Interrupt
pub mod Write
pub mod Calls
pub mod Order
pub mod Between
pub mod Within
pub mod Life
use c4l.Common.{ℕ, List, [], ◌∷◌, ◌++◌, true, take}
use c4l.Message.{Msg}
use c4l.Machine.{Access, M, pure, ◌>>=◌, ◌>>◌, Result, ok, err}
use c4l.File.{PollBits, can_read, can_write, can_select}
use c4l.Device.Ioctl.{Request, can_ioctl}
use c4l.Isr.{can_interrupt, dlyworker}

-- A call of the driver, with the user's buffers in reach. An interrupt is handled in at most `rounds` rounds.
pub data Call : Type 0 where
  write : List Msg → Call
  read : ℕ → Call
  poll : PollBits → Call
  ioctl : Request → Call
  interrupt : (rounds : ℕ) → Call
  timer : Call

-- The messages of the buffer `ms` that a write took, by its result.
abbrev pub accepted : List Msg → Result → List Msg
accepted ms (ok n) = take n ms
accepted ms (err e) = []

module _ (clock : List Access → ℕ × ℕ) where
  -- One call, with the messages that it accepts for sending, and those that it gives to the user.
  unfoldable pub call : Call → M (List Msg × List Msg)
  call (write ms) = can_write true ms >>= λ r. pure (accepted ms r, [])
  call (read count) = can_read true count >>= λ r. pure ([], r.1)
  call (poll bits) = can_select bits >> pure ([], [])
  call (ioctl req) = can_ioctl true true req >> pure ([], [])
  call (interrupt rounds) = can_interrupt clock rounds >> pure ([], [])
  call timer = dlyworker >> pure ([], [])

  -- All calls of a list, with all such messages.
  unfoldable pub session : List Call → M (List Msg × List Msg)
  unfolding call
  session [] = pure ([], [])
  session (c ∷ cs) = call c >>= λ p. session cs >>= λ q. pure (p.0 ++ q.0, p.1 ++ q.1)

-- ===== src/Examples.antt =====
-- One channel of the driver at port 0x280, for the examples.
mod Queue
mod Bus
mod Life
mod Tool
mod Session
mod Threads
mod Boards
mod Filtering
mod Sending
mod Arriving
use c4l.Common.{
  ℕ, ◌+◌, ◌-◌, ◌^◌, ◌<◌, ◌≤◌, ◌≡◌, refl, arith, Option, none, some, List, [], ◌∷◌, Bool, true,
  false, ◌==◌, if◌then◌else◌, ltb, replicate, length-replicate, length,
}
use c4l.Message.{Msg, zero_msg}
use c4l.Msgq.{MsgQ}
use c4l.Msgq.Valid.{IsValid}
use c4l.Machine.{Access, Timer, Vars, Dev, St}
use c4l.Frame.{Msginf}
use c4l.Chip.Reads.{reads}
use c4l.Isr.Safe.{IsOpen, rx_bits, tx_bits}
use c4l.Device.{Kernel}
use c4l.Device.Ready.{Grants, IsDrained}

abbrev pub rx_mem : List Msg
rx_mem = replicate 2048 zero_msg

abbrev pub tx_mem : List Msg
tx_mem = replicate 128 zero_msg

-- A standard frame with two bytes, and the same with a delay of 5 ms.
abbrev pub hello : Msg
hello = record zero_msg { id = 0x123; length = 2; bytes = 1 ∷ 2 ∷ 0 ∷ 0 ∷ 0 ∷ 0 ∷ 0 ∷ 0 ∷ [] }

abbrev pub later : Msg
later = record hello { tv_usec = 5000 }

abbrev pub empty_queue : ℕ → List Msg → MsgQ
empty_queue size mem = record {
  produced = 0;
  consumed = 0;
  mask = size - 1;
  msgs = mem;
  lk = false;
  idle = 1;
}

-- A queue that holds `m` alone.
abbrev pub one_queued : Msg → MsgQ
one_queued m = record {
  produced = 1;
  consumed = 0;
  mask = 127;
  msgs = m ∷ replicate 127 zero_msg;
  lk = true;
  idle = 0;
}

abbrev pub vars : Vars
vars = record {
  io_model = 112;
  irq = 5;
  base = 640;
  baud = 125;
  acc_code = 0xffff_ffff;
  acc_mask = 0xffff_ffff;
  timeout = 100;
  outc = 0xfa;
  tx_err = 0;
  rx_err = 0;
  overrun = 0;
}

abbrev pub device : MsgQ → MsgQ → Dev
device rx tx = record {
  minor = 0;
  isopen = 0;
  can_range = 0x20;
  requested_irq = 0;
  wq = 0;
  rxq = rx;
  txq = tx;
  txinprogress = 0;
  rxstatus = 1;
  delayedwork = none;
}

-- A timer that has not been started.
abbrev pub no_timer : Timer
no_timer = record { nsec = 0; target = 0; armed = false }

abbrev pub channel : (List Access → ℕ → ℕ) → MsgQ → MsgQ → St
channel env rx tx = record {
  vars = vars;
  dev = device rx tx;
  log = [];
  env = env;
  idly = 0;
  dly = no_timer ∷ no_timer ∷ no_timer ∷ no_timer ∷ [];
}

-- A controller that answers 0, one whose mode register shows the reset request, and one with one transmit interrupt.
abbrev pub silent : List Access → ℕ → ℕ
silent log port = 0

abbrev pub present : List Access → ℕ → ℕ
present log port = if port == 640 then 1 else 0

abbrev pub interrupting : List Access → ℕ → ℕ
interrupting log port = if ltb (reads 643 log) 1 then 2 else 0

-- The state without messages, and with one to send.
abbrev pub ready : (List Access → ℕ → ℕ) → St
ready env = channel env (empty_queue 2048 rx_mem) (empty_queue 128 tx_mem)

abbrev pub sending : (List Access → ℕ → ℕ) → Msg → St
sending env m = channel env (empty_queue 2048 rx_mem) (one_queued m)

pub empty_rx-IsValid : IsValid 11 (empty_queue 2048 rx_mem)
empty_rx-IsValid = record {
  small = omega arith;
  mask_of = refl;
  slots = length-replicate 2048 zero_msg;
  produced_in = omega arith;
  consumed_in = omega arith;
  fits = omega arith;
}

pub empty_tx-IsValid : IsValid 7 (empty_queue 128 tx_mem)
empty_tx-IsValid = record {
  small = omega arith;
  mask_of = refl;
  slots = length-replicate 128 zero_msg;
  produced_in = omega arith;
  consumed_in = omega arith;
  fits = omega arith;
}

pub one_queued-IsValid : (m : Msg) → IsValid 7 (one_queued m)
one_queued-IsValid m = record {
  small = omega arith;
  mask_of = refl;
  slots = omega (arith, length-replicate 127 zero_msg);
  produced_in = omega arith;
  consumed_in = omega arith;
  fits = omega arith;
}

pub ready-IsOpen : (env : List Access → ℕ → ℕ) → IsOpen (ready env)
ready-IsOpen env = record {
  rx_valid = empty_rx-IsValid;
  tx_valid = empty_tx-IsValid;
  baud_set = λ e. omega (arith, e);
}

pub sending-IsOpen : (env : List Access → ℕ → ℕ) (m : Msg) → IsOpen (sending env m)
sending-IsOpen env m = record {
  rx_valid = empty_rx-IsValid;
  tx_valid = one_queued-IsValid m;
  baud_set = λ e. omega (arith, e);
}

abbrev pub kernel : Kernel
kernel = record { region_free = true; irq_reply = 0; rx_mem = some rx_mem; tx_mem = some tx_mem }

pub kernel-Grants : Grants kernel rx_mem tx_mem
kernel-Grants = record {
  region = refl;
  irq = refl;
  rx_some = refl;
  tx_some = refl;
  rx_slots = length-replicate 2048 zero_msg;
  tx_slots = length-replicate 128 zero_msg;
}

abbrev pub clock : List Access → ℕ × ℕ
clock log = (0, 0)

abbrev pub stamp : Msginf
stamp = record { flags = 0; minor = 0; tv_sec = 7; tv_usec = 8 }

pub drained : (size : ℕ) (mem : List Msg) → IsDrained (empty_queue size mem)
drained size mem = record { level = refl; in_range = omega arith }

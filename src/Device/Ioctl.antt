-- ===== src/Device/Ioctl.antt =====
-- ioctl.c: the commands to the controller, its configuration, and the status of the device.
use c4l.Common.{ℕ, none, some, Bool, ◌==◌, if◌then◌else◌}
use c4l.Msgq.{qlen, qsize}
use c4l.Machine.{M, pure, ◌>>=◌, state, with_vars, einval, eio, Result, ok, err}
use c4l.Register
use c4l.Chip.{can_in, chip_reset, start_chip, stop_chip, set_mask, set_timing, set_omode}

-- The commands and targets of can4linux.h. `unknown` stands for all other numbers.
pub data Command : Type 0 where
  cmd_start : Command
  cmd_stop : Command
  cmd_reset : Command
  unknown_command : Command

pub data Target : Type 0 where
  conf_acc : Target
  conf_accm : Target
  conf_accc : Target
  conf_timing : Target
  conf_omode : Target
  unknown_target : Target

abbrev pub command_of : ℕ → Command
command_of n =
    if n == 1
    then cmd_start
    else if n == 2
    then cmd_stop
    else if n == 3
    then cmd_reset
    else unknown_command

abbrev pub target_of : ℕ → Target
target_of n =
    if n == 0
    then conf_acc
    else if n == 1
    then conf_accm
    else if n == 2
    then conf_accc
    else if n == 3
    then conf_timing
    else if n == 4
    then conf_omode
    else unknown_target

-- can_Command. The results of the controller's functions are dropped.
unfoldable pub run_command : Command → M Result
unfolding start_chip stop_chip chip_reset
run_command cmd_start = start_chip >>= λ _. pure (ok 0)
run_command cmd_stop = stop_chip >>= λ _. pure (ok 0)
run_command cmd_reset = chip_reset >>= λ _. pure (ok 0)
run_command unknown_command = pure (err einval)

-- `CAN_SetMask(minor, AccCode[minor], AccMask[minor])`.
unfoldable pub apply_mask : M Result
unfolding set_mask
apply_mask st = (set_mask st.vars.acc_code st.vars.acc_mask >>= λ _. pure (ok 0)) st

-- can_Config. The arguments are `unsigned long`s of 32 bits.
unfoldable pub configure : Target → ℕ → ℕ → M Result
unfolding apply_mask set_timing set_omode
configure conf_acc val1 val2 =
    with_vars (λ v. record v { acc_mask = val1; acc_code = val2 }) >>= λ _. apply_mask
configure conf_accm val1 val2 = with_vars (λ v. record v { acc_mask = val1 }) >>= λ _. apply_mask
configure conf_accc val1 val2 = with_vars (λ v. record v { acc_code = val1 }) >>= λ _. apply_mask
configure conf_timing val1 val2 =
    with_vars (λ v. record v { baud = val1 }) >>= λ _. set_timing val1 >>= λ _. pure (ok 0)
configure conf_omode val1 val2 = set_omode val1 >>= λ _. pure (ok 0)
configure unknown_target val1 val2 = pure (err einval)

-- `CanStatusPar_t`, without `retval`.
pub record CanStatusPar : Type 0 where
  pub type : ℕ
  pub baud : ℕ
  pub status : ℕ
  pub error_warning_limit : ℕ
  pub rx_errors : ℕ
  pub tx_errors : ℕ
  pub error_code : ℕ
  pub rx_buffer_size : ℕ
  pub rx_buffer_used : ℕ
  pub tx_buffer_size : ℕ
  pub tx_buffer_used : ℕ

abbrev pub can_type_sja1000 : ℕ
can_type_sja1000 = 1

-- can_GetStat.
unfoldable pub get_stat : M CanStatusPar
unfolding can_in qsize qlen
get_stat = can_in Register.canstat >>= λ s. can_in Register.errorwarninglimit >>= λ limit.
    can_in Register.rxerror >>= λ rx. can_in Register.txerror >>= λ tx.
    can_in Register.errorcode >>= λ code. state >>= λ st. pure (record {
      type = can_type_sja1000;
      baud = st.vars.baud;
      status = s;
      error_warning_limit = limit;
      rx_errors = rx;
      tx_errors = tx;
      error_code = code;
      rx_buffer_size = qsize st.dev.rxq;
      rx_buffer_used = qlen st.dev.rxq;
      tx_buffer_size = qsize st.dev.txq;
      tx_buffer_used = qlen st.dev.txq;
    })

-- A request of ioctl with the user's structure.
pub data Request : Type 0 where
  command : ℕ → Request
  config : ℕ → ℕ → ℕ → Request
  status : Request
  unknown_request : Request

-- What is copied back to the user: `retval` and `error`, or the status with a `retval` of 0.
pub data Reply : Type 0 where
  nothing : Reply
  answered : Result → ℕ → Reply
  stat : CanStatusPar → Reply

-- The cases of can_ioctl after the buffer was allocated. Nothing sets `Can_errno` after it was cleared.
unfoldable pub serve : Request → M (Result × Reply)
unfolding run_command configure get_stat
serve (command cmd) = run_command (command_of cmd) >>= λ r. pure (ok 1, answered r 0)
serve (config target val1 val2) =
    configure (target_of target) val1 val2 >>= λ r. pure (ok 1, answered r 0)
serve status = get_stat >>= λ s. pure (ok 1, stat s)
serve unknown_request = pure (err einval, nothing)

-- `allowed` is what both calls of `access_ok` say. Without memory the copy to the buffer is a fault.
unfoldable pub checked : Bool → Bool → Request → M (Result × Reply)
unfolding serve
checked allowed memory req st =
    if allowed then (if memory then serve req st else none) else some ((err eio, nothing), st)

unfoldable pub can_ioctl : Bool → Bool → Request → M (Result × Reply)
unfolding checked serve
can_ioctl allowed memory unknown_request = serve unknown_request
can_ioctl allowed memory (command cmd) = checked allowed memory (command cmd)
can_ioctl allowed memory (config target val1 val2) =
    checked allowed memory (config target val1 val2)
can_ioctl allowed memory status = checked allowed memory status

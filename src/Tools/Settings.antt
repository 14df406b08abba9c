-- ===== src/Tools/Settings.antt =====
-- How the example programs set the bit rate and the filter: set_bitrate and can_reset of can_send.c, and set_accmask and
-- set_acccode of acceptance.c.
pub mod Rate
pub mod Changes
use c4l.Common.{ℕ, true}
use c4l.Machine.{M, pure, ◌>>=◌, Result}
use c4l.Device.Ioctl.{Request, Reply, command, config, can_ioctl}

abbrev pub user_ioctl : Request → M (Result × Reply)
user_ioctl req = can_ioctl true true req

-- The configuration of a stopped controller, which then starts again. The results of the calls are dropped.
abbrev pub stopped_for : Request → M ℕ
stopped_for req =
    user_ioctl (command 2) >>= λ _. user_ioctl req >>= λ _. user_ioctl (command 1) >>= λ _. pure 0

-- `val2` is what stands in the variable `cfg` that is not initialised.
unfoldable pub set_bitrate : ℕ → ℕ → M ℕ
unfolding can_ioctl
set_bitrate val2 baud = stopped_for (config 3 baud val2)

unfoldable pub set_accmask : ℕ → ℕ → M ℕ
unfolding can_ioctl
set_accmask newcode newmask = stopped_for (config 0 newmask newcode)

unfoldable pub set_acccode : ℕ → ℕ → M ℕ
unfolding can_ioctl
set_acccode val2 newcode = stopped_for (config 2 newcode val2)

-- can_reset, with the result of ioctl.
unfoldable pub reset_controller : M Result
unfolding can_ioctl
reset_controller = user_ioctl (command 3) >>= λ (r, reply). pure r

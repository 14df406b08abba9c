-- ===== src/Tools/Settings/Rate.antt =====
-- set_bitrate and the acceptance functions of the example programs: what they leave in the controller.
use c4l.Common.{ℕ, ◌+◌, ◌%◌, ◌≡◌, ◌≢◌, ◌∙◌, arith, some, true}
use c4l.Machine.{St, pure, ◌>>=◌, >>=-some, Result, ok}
use c4l.Register
use c4l.Chip.{start_chip, stop_chip}
use c4l.Chip.Shadow.{written}
use c4l.Chip.Start.{start_chip_lem, stop_chip_lem}
use c4l.Device.Ioctl.{
  Reply, Command, cmd_stop, cmd_start, answered, command, config, configure, target_of, run_command,
  can_ioctl, serve, checked,
}
use c4l.Tools.Settings.{stopped_for}

abbrev pub ModeOf : (ℕ → Type 0) → St → St → Type 0
ModeOf P st st' =
    (mode : ℕ) × (written st'.log (st.vars.base + Register.canmode) ≡ some mode) × P mode

-- The controller is in reset mode, and nothing else has changed.
abbrev pub Stopped : St → St → Type 0
Stopped st st' =
    ModeOf (λ mode. mode % 2 ≡ 1) st st'
    × (st'.vars ≡ st.vars)
    × (st'.dev ≡ st.dev)
    × ((r : ℕ)
        → r ≢ Register.canmode
        → written st'.log (st.vars.base + r) ≡ written st.log (st.vars.base + r))

-- The controller runs, with its interrupts enabled and no errors counted.
abbrev pub Started : St → St → Type 0
Started st st' =
    ModeOf (λ mode. mode % 2 ≡ 0) st st'
    × (written st'.log (st.vars.base + Register.canirq_enable) ≡ some 15)
    × (st'.vars ≡ record st.vars { rx_err = 0; tx_err = 0 })
    × (st'.dev ≡ st.dev)
    × ((r : ℕ)
        → r ≢ Register.canirq_enable
        → r ≢ Register.canmode
        → written st'.log (st.vars.base + r) ≡ written st.log (st.vars.base + r))

answers :
    (c : Command) (st : St) {st' : St}
    → run_command c st ≡ some (ok 0, st')
    → ◌>>=◌ {B = Result × Reply} (run_command c) (λ r. pure (ok 1, answered r 0)) st
      ≡ some ((ok 1, answered (ok 0) 0), st')
answers c st run = >>=-some (run_command c) (λ r. pure (ok 1, answered r 0)) {st = st} run

pub stops :
    (st : St)
    → (st' : St) × (can_ioctl true true (command 2) st ≡ some ((ok 1, answered (ok 0) 0), st'))
      × Stopped st st'
unfolding can_ioctl serve checked run_command
stops st =
    let (st', run, mode, vars, dev, others) = stop_chip_lem st in
    (
      st',
      answers cmd_stop st (>>=-some stop_chip (λ _. pure (ok 0)) {st = st} run),
      ((_, mode, omega arith), vars, dev, others),
    )

starts :
    (st : St)
    → (st' : St) × (can_ioctl true true (command 1) st ≡ some ((ok 1, answered (ok 0) 0), st'))
      × Started st st'
unfolding can_ioctl serve checked run_command
starts st =
    let (st', run, irqs, mode, vars, dev, others) = start_chip_lem st in
    (
      st',
      answers cmd_start st (>>=-some start_chip (λ _. pure (ok 0)) {st = st} run),
      ((_, mode, omega arith), irqs, vars, dev, others),
    )

-- A configuration between the two.
pub stopped_for_lem :
    (target val1 val2 : ℕ) (st st1 st2 : St)
    → can_ioctl true true (command 2) st ≡ some ((ok 1, answered (ok 0) 0), st1)
    → configure (target_of target) val1 val2 st1 ≡ some (ok 0, st2)
    → (st' : St) × (stopped_for (config target val1 val2) st ≡ some (0, st')) × Started st2 st'
stopped_for_lem target val1 val2 st st1 st2 run1 run2 =
    let (st', run3, started) = starts st2 in
    (
      st',
      >>=-some (can_ioctl true true (command 2)) _ {st = st} run1
          ∙ >>=-some (can_ioctl true true (config target val1 val2)) _ {st = st1} (served run2)
          ∙ >>=-some (can_ioctl true true (command 1)) _ {st = st2} run3,
      started,
    )
  where
    served :
        configure (target_of target) val1 val2 st1 ≡ some (ok 0, st2)
        → can_ioctl true true (config target val1 val2) st1 ≡ some ((ok 1, answered (ok 0) 0), st2)
    served run =
        unfold can_ioctl serve checked in
        >>=-some (configure (target_of target) val1 val2) (λ r. pure (ok 1, answered r 0))
          {st = st1} run

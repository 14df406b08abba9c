-- ===== src/Tools/Settings/Changes.antt =====
-- The bit rate and the filter that the example programs set.
use c4l.Common.{ℕ, ◌+◌, ◌%◌, ◌<◌, ◌≡◌, ◌≢◌, refl, ◌∙◌, sym, ap, subst, arith, some, u32, List}
use c4l.Machine.{Access, Vars, St, pure, >>=-some, ok}
use c4l.Register
use c4l.Chip.{set_timing}
use c4l.Chip.Shadow.{written, word_at}
use c4l.Chip.Timing.{TimingOf, set_timing_lem}
use c4l.Device.Ioctl.{conf_timing, config, configure, target_of}
use c4l.Device.Config.{filter_of, configure-filter}
use c4l.Tools.Settings.{stopped_for, set_bitrate, set_accmask, set_acccode}
use c4l.Tools.Settings.Rate.{ModeOf, stops, stopped_for_lem}

-- The controller runs with its interrupts enabled, and the variables are `vars` without any errors counted.
abbrev pub RunsWith : Vars → St → St → Type 0
RunsWith vars st st' =
    ((mode : ℕ) × (written st'.log (st.vars.base + Register.canmode) ≡ some mode) × (mode % 2 ≡ 0))
    × (written st'.log (st.vars.base + Register.canirq_enable) ≡ some 15)
    × (st'.vars ≡ record vars { rx_err = 0; tx_err = 0 })
    × (st'.dev ≡ st.dev)

running :
    (st s s' : St) (vars : Vars)
    → s.vars.base ≡ st.vars.base
    → ModeOf (λ mode. mode % 2 ≡ 0) s s'
    → written s'.log (s.vars.base + Register.canirq_enable) ≡ some 15
    → s'.vars ≡ record vars { rx_err = 0; tx_err = 0 }
    → s'.dev ≡ st.dev
    → RunsWith vars st s'
running st s s' vars same (mode, is, even) irqs now dev = (
  (mode, subst (λ (b : ℕ). written s'.log (b + Register.canmode) ≡ some mode) same is, even),
  subst (λ (b : ℕ). written s'.log (b + Register.canirq_enable) ≡ some 15) same irqs,
  now,
  dev,
)

-- The bit rate is set while the controller is in reset mode.
abbrev pub SetsTiming : ℕ → ℕ → St → St → St → Type 0
SetsTiming baud val2 st st1 st2 =
    ((mode : ℕ) × (written st1.log (st.vars.base + Register.canmode) ≡ some mode) × (mode % 2 ≡ 1))
    × (configure conf_timing baud val2 st1 ≡ some (ok 0, st2))
    × (written st2.log (st.vars.base + Register.canmode)
        ≡ written st1.log (st.vars.base + Register.canmode))

-- set_bitrate stops the controller, gives it the bus timing of the rate, or that of the two low bytes, in reset mode, and
-- starts it again: the controller then has this timing, and runs with its interrupts enabled, the rate is kept, and the error
-- counters are 0. Nothing else of the device has changed.
pub set_bitrate_lem :
    (val2 baud : ℕ) (st : St)
    → (st1 : St) × (st2 : St) × (st' : St) × (t0 : ℕ) × (t1 : ℕ) × (set_bitrate val2 baud st
        ≡ some (0, st'))
      × SetsTiming baud val2 st st1 st2
      × (written st'.log (st.vars.base + Register.cantim0) ≡ some t0)
      × (written st'.log (st.vars.base + Register.cantim1) ≡ some t1)
      × TimingOf baud t0 t1
      × RunsWith (record st.vars { baud = baud }) st st'
unfolding set_bitrate configure
set_bitrate_lem val2 baud st =
    let (st1, run1, ((m1, mode1, odd), vars1, dev1, others1)) = stops st in
    let with_baud : St = record st1 { vars = record st1.vars { baud = baud } } in
    let (st2, t0, t1, run2, tim0, tim1, timing, clk, others2, vars2, dev2) =
      set_timing_lem baud with_baud in
    let (st', run3, (mode3, irqs, vars3, dev3, others3)) =
      stopped_for_lem 3 baud val2 st st1 st2 run1
        (>>=-some (set_timing baud) (λ _. pure (ok 0)) {st = with_baud} run2) in
    let b1 : st1.vars.base ≡ st.vars.base = ap (λ (v : Vars). v.base) vars1 in
    let b2 : st2.vars.base ≡ st1.vars.base = ap (λ (v : Vars). v.base) vars2 in
    let rate : record st1.vars { baud = baud } ≡ record st.vars { baud = baud } =
      ap (λ (v : Vars). record v { baud = baud }) vars1 in
    (
      st1,
      st2,
      st',
      t0,
      t1,
      run3,
      (
        (m1, mode1, odd),
        >>=-some (set_timing baud) (λ _. pure (ok 0)) {st = with_baud} run2,
        subst
            (λ (b : ℕ).
              written st2.log (b + Register.canmode) ≡ written st1.log (b + Register.canmode))
            b1
            (others2 Register.canmode (λ e. omega (arith, e)) (λ e. omega (arith, e))
              (λ e. omega (arith, e))),
      ),
      still st2 st' t0 (b2 ∙ b1) Register.cantim0
          (others3 Register.cantim0 (λ e. omega (arith, e)) (λ e. omega (arith, e)))
          (subst (λ (b : ℕ). written st2.log (b + Register.cantim0) ≡ some t0) (sym b2) tim0),
      still st2 st' t1 (b2 ∙ b1) Register.cantim1
          (others3 Register.cantim1 (λ e. omega (arith, e)) (λ e. omega (arith, e)))
          (subst (λ (b : ℕ). written st2.log (b + Register.cantim1) ≡ some t1) (sym b2) tim1),
      timing,
      running st st2 st' (record st.vars { baud = baud }) (b2 ∙ b1) mode3 irqs
          (vars3 ∙ ap (λ (v : Vars). record v { rx_err = 0; tx_err = 0 }) (vars2 ∙ rate))
          (dev3 ∙ dev2 ∙ dev1),
    )
  where
    still :
        (s s' : St) (v : ℕ)
        → s.vars.base ≡ st.vars.base
        → (r : ℕ) → written s'.log (s.vars.base + r) ≡ written s.log (s.vars.base + r)
        → written s.log (s.vars.base + r) ≡ some v
        → written s'.log (st.vars.base + r) ≡ some v
    still s s' v same r kept is =
        subst (λ (b : ℕ). written s'.log (b + r) ≡ some v) same (kept ∙ is)

word_at_cong :
    (log log' : List Access) (port : ℕ)
    → ((i : ℕ) → i < 4 → written log' (port + i) ≡ written log (port + i))
    → word_at log' port ≡ word_at log port
word_at_cong log log' port h =
    rw
      (
        sym (ap (written log') zero_more) ∙ h 0 (omega arith) ∙ ap (written log) zero_more,
        h 1 (omega arith),
        h 2 (omega arith),
        h 3 (omega arith),
      )
      refl
  where
    zero_more : port + 0 ≡ port
    zero_more = omega arith

-- A configuration of the filter of a stopped controller, which then starts again.
filtered :
    (target val1 val2 code mask : ℕ) (st : St)
    → filter_of (target_of target) val1 val2 st.vars ≡ some (code, mask)
    → (st' : St) × (stopped_for (config target val1 val2) st ≡ some (0, st'))
      × (word_at st'.log (st.vars.base + Register.frameinfo) ≡ some (u32 code))
      × (word_at st'.log (st.vars.base + Register.canid4) ≡ some (u32 mask))
      × RunsWith (record st.vars { acc_code = code; acc_mask = mask }) st st'
filtered target val1 val2 code mask st e =
    let (st1, run1, (mode1, vars1, dev1, others1)) = stops st in
    let (st2, run2, c, m, vars2, dev2) =
      configure-filter (target_of target) val1 val2 code mask st1
        (ap (filter_of (target_of target) val1 val2) vars1 ∙ e) in
    let (st', run3, (mode3, irqs, vars3, dev3, others3)) =
      stopped_for_lem target val1 val2 st st1 st2 run1 run2 in
    let b1 : st1.vars.base ≡ st.vars.base = ap (λ (v : Vars). v.base) vars1 in
    let b2 : st2.vars.base ≡ st1.vars.base = ap (λ (v : Vars). v.base) vars2 in
    let now : st2.vars ≡ record st.vars { acc_code = code; acc_mask = mask } =
      vars2 ∙ ap (λ (v : Vars). record v { acc_code = code; acc_mask = mask }) vars1 in
    (
      st',
      run3,
      still st1 st2 st' (b2 ∙ b1) b2 Register.frameinfo (u32 code) (omega arith) others3 c,
      still st1 st2 st' (b2 ∙ b1) b2 Register.canid4 (u32 mask) (omega arith) others3 m,
      running st st2 st' (record st.vars { acc_code = code; acc_mask = mask }) (b2 ∙ b1) mode3 irqs
          (vars3 ∙ ap (λ (v : Vars). record v { rx_err = 0; tx_err = 0 }) now) (dev3 ∙ dev2 ∙ dev1),
    )
  where
    still :
        (a s s' : St)
        → s.vars.base ≡ st.vars.base
        → s.vars.base ≡ a.vars.base
        → (r w : ℕ) → 4 < r
        → ((r : ℕ)
            → r ≢ Register.canirq_enable
            → r ≢ Register.canmode
            → written s'.log (s.vars.base + r) ≡ written s.log (s.vars.base + r))
        → word_at s.log (a.vars.base + r) ≡ some w
        → word_at s'.log (st.vars.base + r) ≡ some w
    still a s s' same before r w past kept is =
        subst (λ (b : ℕ). word_at s'.log (b + r) ≡ some w) same
          (word_at_cong s.log s'.log (s.vars.base + r) (λ i lt.
              let place : s.vars.base + (r + i) ≡ s.vars.base + r + i = omega arith in
              subst (λ (p : ℕ). written s'.log p ≡ written s.log p) place
                (kept (r + i) (λ e. omega (arith, e, past)) (λ e. omega (arith, e, past))))
            ∙ subst (λ (b : ℕ). word_at s.log (b + r) ≡ some w) (sym before) is)

-- set_accmask and set_acccode stop the controller, configure its filter and start it again: the controller and the variables
-- then have the new acceptance code, and the new mask or, for set_acccode, the old one; the controller runs with its interrupts
-- enabled, the error counters are 0, and nothing else of the device has changed.
pub set_accmask_lem :
    (val2 newcode newmask : ℕ) (st : St)
    → ((st' : St) × (set_accmask newcode newmask st ≡ some (0, st'))
        × (word_at st'.log (st.vars.base + Register.frameinfo) ≡ some (u32 newcode))
        × (word_at st'.log (st.vars.base + Register.canid4) ≡ some (u32 newmask))
        × RunsWith (record st.vars { acc_code = newcode; acc_mask = newmask }) st st')
      × ((st' : St) × (set_acccode val2 newcode st ≡ some (0, st'))
          × (word_at st'.log (st.vars.base + Register.frameinfo) ≡ some (u32 newcode))
          × (word_at st'.log (st.vars.base + Register.canid4) ≡ some (u32 st.vars.acc_mask))
          × RunsWith (record st.vars { acc_code = newcode }) st st')
unfolding set_accmask set_acccode
set_accmask_lem val2 newcode newmask st = (
  filtered 0 newmask newcode newcode newmask st refl,
  filtered 2 newcode val2 newcode st.vars.acc_mask st refl,
)

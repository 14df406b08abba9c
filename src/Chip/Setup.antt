-- ===== src/Chip/Setup.antt =====
-- The controller's set-up: acceptance filter, reset, start.
use c4l.Common.{
  ℕ, ◌+◌, ◌/◌, ◌^◌, ◌<◌, ◌≡◌, ◌⊎◌, inl, inr, refl, arith, some, ◌==◌, if◌then◌else◌, bit_and_mask,
}
use c4l.Common.{List, ◌∷◌, u8, u32, bit_and, ◌-◌}
use c4l.Common.{Bool-cases, ◌≢◌, ap, ◌∙◌, subst}
use c4l.Machine.{>>=-some, ◌>>◌, St, Vars, Access, input, output}
use c4l.Register
use c4l.Chip.{set_mask, set_timing, chip_reset, init_registers}
use c4l.Chip.{can_outc_val}
use c4l.Chip.Shadow.{written, word_at}
use c4l.Chip.Timing.{TimingOf, set_timing_lem}

-- CAN_SetMask: the four code registers hold the acceptance code, the four after them the mask, the most
-- significant byte first, and no other register is written.
pub set_mask_lem :
    (code mask : ℕ) (st : St)
    → (st' : St) × (set_mask code mask st ≡ some (0, st'))
      × (word_at st'.log (st.vars.base + Register.frameinfo) ≡ some (u32 code))
      × (word_at st'.log (st.vars.base + Register.canid4) ≡ some (u32 mask))
      × ((r : ℕ)
          → (r < Register.frameinfo) ⊎ (Register.canxdata + 2 < r)
          → written st'.log (st.vars.base + r) ≡ written st.log (st.vars.base + r))
      × (st'.vars ≡ st.vars)
      × (st'.dev ≡ st.dev)
unfolding set_mask
set_mask_lem code mask st = (
  _,
  refl,
  ground (
    arith,
    bit_and_mask 8 code,
    bit_and_mask 8 (code / 256),
    bit_and_mask 8 (code / 65536),
    bit_and_mask 8 (code / 16777216),
  ),
  ground (
    arith,
    bit_and_mask 8 mask,
    bit_and_mask 8 (mask / 256),
    bit_and_mask 8 (mask / 65536),
    bit_and_mask 8 (mask / 16777216),
  ),
  λ r out. ground arith,
  refl,
  refl,
)

-- What the mode register answers after CAN_ChipReset has asked for reset mode and read the status,
-- and the accesses made until then.
abbrev pub status_read : St → List Access
status_read st =
    let asked = output (st.vars.base + Register.canmode) Register.can_reset_request ∷ st.log in
    let port = st.vars.base + Register.canstat in input port (u8 (st.env asked port)) ∷ asked

abbrev pub mode_answer : St → ℕ
mode_answer st = u8 (st.env (status_read st) (st.vars.base + Register.canmode))

abbrev pub mode_read : St → List Access
mode_read st = input (st.vars.base + Register.canmode) (mode_answer st) ∷ status_read st

-- A controller set up by CAN_ChipReset: in reset mode with the single filter, PeliCAN, with the output
-- control, filter and bit timing of the variables `v`.
abbrev pub IsSetUp : Vars → St → Type 0
IsSetUp v st =
    let reg = λ (r : ℕ). written st.log (v.base + r) in
    (reg Register.canmode ≡ some 9)
    × (reg Register.canclk ≡ some 0xc7)
    × (reg Register.canoutc ≡ some (u8 v.outc))
    × (word_at st.log (v.base + Register.frameinfo) ≡ some (u32 v.acc_code))
    × (word_at st.log (v.base + Register.canid4) ≡ some (u32 v.acc_mask))
    × ((t0 : ℕ) × (t1 : ℕ) × (reg Register.cantim0 ≡ some t0)
        × (reg Register.cantim1 ≡ some t1)
        × TimingOf v.baud t0 t1)

-- The variables after a reset: an output control value of 0 is replaced by the board's.
abbrev pub with_outc : Vars → Vars
with_outc v = record v { outc = if v.outc == 0 then can_outc_val else v.outc }

-- CAN_ChipReset without a controller: if the mode register does not show the reset request that was
-- written, -1 is returned and nothing else is written.
pub chip_reset-no_board :
    (st : St)
    → bit_and (mode_answer st) Register.can_reset_request ≡ 0
    → chip_reset st ≡ some (2 ^ 32 - 1, record st { log = mode_read st })
unfolding chip_reset
chip_reset-no_board st h = rw h

-- The timing and then the filter: both are set, and no other register than theirs and the clock divider.
timing-mask :
    (st : St)
    → let v = st.vars in
      let reg = λ (r : ℕ) (log : List Access). written log (v.base + r) in
      (st' : St) × ((set_timing v.baud >> set_mask v.acc_code v.acc_mask) st ≡ some (0, st'))
      × (word_at st'.log (v.base + Register.frameinfo) ≡ some (u32 v.acc_code))
      × (word_at st'.log (v.base + Register.canid4) ≡ some (u32 v.acc_mask))
      × ((t0 : ℕ) × (t1 : ℕ) × (reg Register.cantim0 st'.log ≡ some t0)
          × (reg Register.cantim1 st'.log ≡ some t1)
          × TimingOf v.baud t0 t1)
      × (reg Register.canclk st'.log ≡ some 0xc7)
      × ((r : ℕ)
          → (r ≢ Register.cantim0) × (r ≢ Register.cantim1) × (r ≢ Register.canclk)
          → (r < Register.frameinfo) ⊎ (Register.canxdata + 2 < r)
          → reg r st'.log ≡ reg r st.log)
      × (st'.vars ≡ v)
      × (st'.dev ≡ st.dev)
timing-mask st =
    let (st2, t0, t1, e, w0, w1, timing, clk, others, ev, ed) = set_timing_lem st.vars.baud st in
    let (st3, e', wc, wm, others', ev', ed') = set_mask_lem st.vars.acc_code st.vars.acc_mask st2 in
    let eb : st2.vars.base ≡ st.vars.base = ap (λ (v : Vars). v.base) ev in
    let kept : (r : ℕ)
        → (r < Register.frameinfo) ⊎ (Register.canxdata + 2 < r)
        → written st3.log (st.vars.base + r) ≡ written st2.log (st.vars.base + r) =
      λ r out. subst (λ b. written st3.log (b + r) ≡ written st2.log (b + r)) eb (others' r out) in
    (
      st3,
      >>=-some (set_timing st.vars.baud) (λ _. set_mask st.vars.acc_code st.vars.acc_mask) e ∙ e',
      subst (λ b. word_at st3.log (b + Register.frameinfo) ≡ some (u32 st.vars.acc_code)) eb wc,
      subst (λ b. word_at st3.log (b + Register.canid4) ≡ some (u32 st.vars.acc_mask)) eb wm,
      (
        t0,
        t1,
        kept Register.cantim0 (inl (omega arith)) ∙ w0,
        kept Register.cantim1 (inl (omega arith)) ∙ w1,
        timing,
      ),
      kept Register.canclk (inr (omega arith)) ∙ clk,
      λ r ne out. kept r out ∙ others r ne.0 ne.1 ne.2,
      ev' ∙ ev,
      ed' ∙ ed,
    )

init_registers-IsSetUp :
    (st : St)
    → (st' : St) × (init_registers st ≡ some (0, st'))
      × IsSetUp (with_outc st.vars) st'
      × (st'.vars ≡ with_outc st.vars)
      × (st'.dev ≡ st.dev)
unfolding init_registers
init_registers-IsSetUp st =
    let v = with_outc st.vars in
    let st1 : St = record st {
      vars = v;
      log =
          output (st.vars.base + Register.canoutc) (u8 v.outc)
          ∷ output (st.vars.base + Register.canmode) 9
          ∷ output (st.vars.base + Register.canclk) 0xc7
          ∷ st.log;
    } in
    let (st', e, wc, wm, timing, clk, others, ev, ed) = timing-mask st1 in
    (
      st',
      e,
      (
        others Register.canmode (omega arith, omega arith, omega arith) (inl (omega arith))
            ∙ ground arith,
        clk,
        others Register.canoutc (omega arith, omega arith, omega arith) (inl (omega arith))
            ∙ ground arith,
        wc,
        wm,
        timing,
      ),
      ev,
      ed,
    )

-- CAN_ChipReset: -1 and no more writes if the controller does not answer the reset request, else 0
-- and the controller is set up.
pub chip_reset_lem :
    (st : St)
    → ((bit_and (mode_answer st) Register.can_reset_request ≡ 0)
        × (chip_reset st ≡ some (2 ^ 32 - 1, record st { log = mode_read st })))
      ⊎ ((bit_and (mode_answer st) Register.can_reset_request ≢ 0)
          × ((st' : St) × (chip_reset st ≡ some (0, st'))
              × IsSetUp (with_outc st.vars) st'
              × (st'.vars ≡ with_outc st.vars)
              × (st'.dev ≡ st.dev)))
unfolding chip_reset
chip_reset_lem st = elim (Bool-cases (bit_and (mode_answer st) Register.can_reset_request == 0)) [
  | inl absent ↦ inl (ground arith, chip_reset-no_board st (ground arith))
  | inr there ↦
      let (st', e, up, ev, ed) = init_registers-IsSetUp (record st { log = mode_read st }) in
      inr (ground arith, (st', rw there e, up, ev, ed))
]

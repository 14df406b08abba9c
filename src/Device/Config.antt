-- ===== src/Device/Config.antt =====
-- can_Config and can_ioctl: what a configuration leaves in the controller and in the variables.
use c4l.Common.{ℕ, ◌+◌, ◌^◌, ◌≡◌, refl, ◌∙◌, sym, ap, Option, some, none, u32}
use c4l.Msgq.{qsize}
use c4l.Msgq.Valid.{contents, length-contents}
use c4l.Common.{length}
use c4l.Machine.{Vars, St, pure, >>=-some, ok}
use c4l.Register
use c4l.Chip.{set_mask}
use c4l.Chip.Setup.{set_mask_lem}
use c4l.Chip.Shadow.{word_at}
use c4l.Isr.Safe.{IsOpen, rx_bits, tx_bits}
use c4l.Device.Ioctl.{
  Target, conf_acc, conf_accm, conf_accc, apply_mask, configure, CanStatusPar, get_stat,
}

-- The three filter targets, as the acceptance code and mask that they set.
abbrev pub filter_of : Target → ℕ → ℕ → Vars → Option (ℕ × ℕ)
filter_of conf_acc val1 val2 v = some (val2, val1)
filter_of conf_accm val1 val2 v = some (v.acc_code, val1)
filter_of conf_accc val1 val2 v = some (val1, v.acc_mask)
filter_of _ val1 val2 v = none

abbrev pub Filters : Target → ℕ → ℕ → St → ℕ → ℕ → Type 0
Filters t val1 val2 st code mask =
    (st' : St) × (configure t val1 val2 st ≡ some (ok 0, st'))
    × (word_at st'.log (st.vars.base + Register.frameinfo) ≡ some (u32 code))
    × (word_at st'.log (st.vars.base + Register.canid4) ≡ some (u32 mask))
    × (st'.vars ≡ record st.vars { acc_code = code; acc_mask = mask })
    × (st'.dev ≡ st.dev)

abbrev with_filter : St → ℕ × ℕ → St
with_filter st p = record st { vars = record st.vars { acc_code = p.0; acc_mask = p.1 } }

same_filter : {p q : ℕ × ℕ} → some p ≡ some q → p ≡ q
same_filter e = cc

filters :
    (t : Target) (val1 val2 code mask : ℕ) (st : St)
    → configure t val1 val2 st ≡ apply_mask (with_filter st (code, mask))
    → Filters t val1 val2 st code mask
unfolding apply_mask
filters t val1 val2 code mask st e =
    let (st', run, c, m, rest, ev, ed) = set_mask_lem code mask (with_filter st (code, mask)) in
    (
      st',
      e ∙ >>=-some (set_mask code mask) (λ _. pure (ok 0)) {st = with_filter st (code, mask)} run,
      c,
      m,
      ev,
      ed,
    )

-- After a configuration of the filter, the controller and the variables have the same acceptance code and mask: the new ones
-- where the target gives them, the old ones else.
pub configure-filter :
    (t : Target) (val1 val2 code mask : ℕ) (st : St)
    → filter_of t val1 val2 st.vars ≡ some (code, mask)
    → Filters t val1 val2 st code mask
unfolding configure
configure-filter conf_acc val1 val2 code mask st e =
    filters conf_acc val1 val2 code mask st
      (ap (λ p. apply_mask (with_filter st p)) (same_filter e))
configure-filter conf_accm val1 val2 code mask st e =
    filters conf_accm val1 val2 code mask st
      (ap (λ p. apply_mask (with_filter st p)) (same_filter e))
configure-filter conf_accc val1 val2 code mask st e =
    filters conf_accc val1 val2 code mask st
      (ap (λ p. apply_mask (with_filter st p)) (same_filter e))
configure-filter Target.conf_timing val1 val2 code mask st e = cc
configure-filter Target.conf_omode val1 val2 code mask st e = cc
configure-filter Target.unknown_target val1 val2 code mask st e = cc

-- The status of an open device tells the bit rate, and of both queues the size and how many messages are in.
pub get_stat_lem :
    (st : St)
    → IsOpen st
    → (s : CanStatusPar) × (st' : St) × (get_stat st ≡ some (s, st'))
      × (s.baud ≡ st.vars.baud)
      × (s.rx_buffer_size ≡ 2 ^ rx_bits)
      × (s.rx_buffer_used ≡ length (contents rx_bits st.dev.rxq))
      × (s.tx_buffer_size ≡ 2 ^ tx_bits)
      × (s.tx_buffer_used ≡ length (contents tx_bits st.dev.txq))
      × (st'.dev ≡ st.dev)
      × (st'.vars ≡ st.vars)
unfolding get_stat qsize
get_stat_lem st h = (
  _,
  _,
  refl,
  refl,
  rw h.rx_valid.mask_of,
  sym (length-contents rx_bits st.dev.rxq),
  rw h.tx_valid.mask_of,
  sym (length-contents tx_bits st.dev.txq),
  refl,
  refl,
)

-- ===== src/Session/Calls.antt =====
-- The other calls of a user keep the transmit queue running, and send nothing.
use c4l.Common.{
  ℕ, zero, suc, length, take, drop, ◌∷◌, ◌++◌, sym, ap, subst, ◌∙◌, ◌≡◌, [], ◌≢◌, refl, some, List,
  true, Bool, if◌then◌else◌, leb, slt32, bit_or,
}
use c4l.Message.{Msg}
use c4l.Msgq.{MsgQ, qlen}
use c4l.Msgq.Valid.{IsValid}
use c4l.Machine.{St, pure, ◌>>=◌, with_vars, ok, Result}
use c4l.Chip.Requests.{Quiet, >>=-Quiet}
use c4l.Chip.{set_mask, set_timing}
use c4l.Chip.Quiet.{
  quiet, with_vars-Quiet, set_timing-Quiet, set_mask-Quiet, chip_reset-Quiet, start_chip-Quiet,
  stop_chip-Quiet, set_omode-Quiet,
}
use c4l.File.Read.{with_rx, can_read_lem}
use c4l.Session.Received.{unread, Later, Later-refl, rx-Later, Gathers, Later-Gathers}
use mathlib.Core.List.{append-nil}
use c4l.File.{PollBits, can_read, can_select}
use c4l.Device.Ioctl.{
  Command, cmd_start, cmd_stop, cmd_reset, unknown_command, Target, conf_acc, conf_accm, conf_accc,
  conf_timing, conf_omode, unknown_target, target_of, run_command, apply_mask, configure, get_stat,
  Request, command, config, status, unknown_request, serve, checked, can_ioctl,
}
use c4l.Isr.Safe.{rx_bits, tx_low_lem}
use c4l.Session.Running.{Loose, Untouched, Untouched-Loose, Untouched-Carries, Carries}
use c4l.Session.Live.{Live, Quiet-Live}

rx_Untouched : (st : St) (q : MsgQ) → Untouched st (with_rx st q)
rx_Untouched st q = record {
  base_same = refl;
  tx_same = refl;
  progress_same = refl;
  work_same = refl;
  timers_same = (refl, refl);
  no_request = refl;
}

rx-Loose :
    {w v : Bool} {st : St} {q : MsgQ} → Loose w v st → IsValid rx_bits q → Loose w v (with_rx st q)
rx-Loose {w} {v} {st} {q} h v_rx =
    Untouched-Loose h
      (record { rx_valid = v_rx; tx_valid = h.opened.tx_valid; baud_set = h.opened.baud_set })
      (rx_Untouched st q)

take-append-drop : (n : ℕ) (l : List Msg) → take n l ++ drop n l ≡ l
take-append-drop zero l = refl
take-append-drop (suc n) [] = refl
take-append-drop (suc n) (m ∷ l) = ap (◌∷◌ m) (take-append-drop n l)

-- A read gives the oldest messages to the user.
pub can_read-Gathers :
    (count : ℕ) (w v : Bool) (st : St)
    → Loose w v st
    → (r : Result × List Msg) × (st' : St) × (can_read true count st ≡ some (r, st'))
      × Loose w v st'
      × Carries [] st st'
      × Gathers r.1 st st'
      × (r ≡ (ok (length (take count (unread st))), take count (unread st)))
can_read-Gathers count w v st h =
    let (st', run, now, op, tx, log, only) = can_read_lem count st h.opened in
    let q : MsgQ = st'.dev.rxq in
    (
      (ok (length (take count (unread st))), take count (unread st)),
      st',
      run,
      subst (λ (s : St). Loose w v s) (sym only) (rx-Loose h op.rx_valid),
      subst (λ (s : St). Carries [] st s) (sym only) (Untouched-Carries (rx_Untouched st q)),
      record {
        received = [];
        made = subst (λ (s : St). Later st s) (sym only) (rx-Later st q);
        rx_order =
            append-nil (unread st)
            ∙ sym (take-append-drop count (unread st))
            ∙ ap (λ l. take count (unread st) ++ l) (sym now);
      },
      refl,
    )

pub can_select-Live : (bits : PollBits) → Live (can_select bits)
unfolding can_select
can_select-Live bits = record {
  at = λ w v st h.
      let input : ℕ = if slt32 0 (qlen st.dev.rxq) then bits.readable else 0 in
      (
        if leb (qlen st.dev.txq) 64 then bit_or input bits.writable else input,
        st,
        rw (tx_low_lem st.dev.txq h.opened.tx_valid),
        h,
        Untouched-Carries (rx_Untouched st st.dev.rxq),
        Later-Gathers (Later-refl st) refl,
      );
}

run_command-Quiet : (c : Command) → Quiet (run_command c)
unfolding run_command
run_command-Quiet cmd_start = search (quiet, start_chip-Quiet)
run_command-Quiet cmd_stop = search (quiet, stop_chip-Quiet)
run_command-Quiet cmd_reset = search (quiet, chip_reset-Quiet)
run_command-Quiet unknown_command = search quiet

apply_mask-Quiet : Quiet apply_mask
unfolding apply_mask
apply_mask-Quiet = record {
  at = λ st.
      (>>=-Quiet (set_mask st.vars.acc_code st.vars.acc_mask) (λ _. pure (ok 0))
          (set_mask-Quiet st.vars.acc_code st.vars.acc_mask) (λ _. search quiet)).at
        st;
}

-- A bit rate that is set is not 0.
abbrev pub SetsRate : Target → ℕ → Type 0
SetsRate conf_timing val1 = val1 ≢ 0
SetsRate conf_acc val1 = Unit {0}
SetsRate conf_accm val1 = Unit {0}
SetsRate conf_accc val1 = Unit {0}
SetsRate conf_omode val1 = Unit {0}
SetsRate unknown_target val1 = Unit {0}

configure-Quiet : (t : Target) (val1 val2 : ℕ) → SetsRate t val1 → Quiet (configure t val1 val2)
unfolding configure
configure-Quiet conf_acc val1 val2 h =
    >>=-Quiet (with_vars (λ v. record v { acc_mask = val1; acc_code = val2 })) (λ _. apply_mask)
      (with_vars-Quiet _ (λ v. (refl, λ r. r))) (λ _. apply_mask-Quiet)
configure-Quiet conf_accm val1 val2 h =
    >>=-Quiet (with_vars (λ v. record v { acc_mask = val1 })) (λ _. apply_mask)
      (with_vars-Quiet _ (λ v. (refl, λ r. r))) (λ _. apply_mask-Quiet)
configure-Quiet conf_accc val1 val2 h =
    >>=-Quiet (with_vars (λ v. record v { acc_code = val1 })) (λ _. apply_mask)
      (with_vars-Quiet _ (λ v. (refl, λ r. r))) (λ _. apply_mask-Quiet)
configure-Quiet conf_timing val1 val2 h =
    >>=-Quiet (with_vars (λ v. record v { baud = val1 }) >>= λ _. set_timing val1)
      (λ _. pure (ok 0))
      (>>=-Quiet (with_vars (λ v. record v { baud = val1 })) (λ _. set_timing val1)
        (with_vars-Quiet _ (λ v. (refl, λ r. h))) (λ _. set_timing-Quiet val1))
      (λ _. search quiet)
configure-Quiet conf_omode val1 val2 h = search (quiet, set_omode-Quiet)
configure-Quiet unknown_target val1 val2 h = search quiet

get_stat-Quiet : Quiet get_stat
unfolding get_stat
get_stat-Quiet = search quiet depth 20

abbrev pub KeepsRate : Request → Type 0
KeepsRate (command cmd) = Unit {0}
KeepsRate (config target val1 val2) = SetsRate (target_of target) val1
KeepsRate status = Unit {0}
KeepsRate unknown_request = Unit {0}

serve-Quiet : (req : Request) → KeepsRate req → Quiet (serve req)
unfolding serve
serve-Quiet (command cmd) h = search (quiet, run_command-Quiet)
serve-Quiet (config target val1 val2) h =
    search (quiet, configure-Quiet (target_of target) val1 val2 h)
serve-Quiet status h = search (quiet, get_stat-Quiet)
serve-Quiet unknown_request h = search quiet

pub can_ioctl-Live : (req : Request) → KeepsRate req → Live (can_ioctl true true req)
unfolding can_ioctl checked
can_ioctl-Live (command cmd) h = Quiet-Live _ (serve-Quiet (command cmd) h)
can_ioctl-Live (config target val1 val2) h = Quiet-Live _ (serve-Quiet (config target val1 val2) h)
can_ioctl-Live status h = Quiet-Live _ (serve-Quiet status h)
can_ioctl-Live unknown_request h = Quiet-Live _ (serve-Quiet unknown_request h)

-- ===== src/File/Idle.antt =====
-- An idle transmit queue is empty: no message waits in a queue that nothing would start again.
use native.Mathlib.Decide.{ℕ_discrete}
use c4l.Common.{◌≡◌, ◌≢◌, refl, ◌∙◌, sym, ap, arith, some, List, [], ◌∷◌, true, length}
use c4l.Message.{Msg}
use c4l.Msgq.Valid.{contents}
use c4l.Machine.{St, Result, ok}
use c4l.File.{can_write, write_loop}
use c4l.File.Write.{can_write_lem}
use c4l.File.Start.{can_write-starts}
use c4l.Isr.{on_transmit}
use c4l.Isr.Safe.{IsOpen, tx_bits}
use c4l.Isr.Transmit.{Turn, idles, sends, keeps, on_transmit_lem}

abbrev pub IdleIsEmpty : St → Type 0
IdleIsEmpty st = st.dev.txq.idle ≢ 0 → contents tx_bits st.dev.txq ≡ []

not_both : {l rest : List Msg} {x : Msg} → l ≡ [] → l ≡ x ∷ rest → ⊥
not_both e f = absurd (omega (arith, ap length (sym e ∙ f)))

pub Turn-IdleIsEmpty : {a b : St} → Turn a b → IdleIsEmpty a → IdleIsEmpty b
Turn-IdleIsEmpty (idles before after i l t timer) h ne = after
Turn-IdleIsEmpty (sends x rest before after held t same asked timer) h ne =
    absurd (not_both (h (λ e. ne (same ∙ e))) before)
Turn-IdleIsEmpty (keeps x rest before after l t same timer) h ne =
    absurd (not_both (h (λ e. ne (same ∙ e))) before)

-- If an idle transmit queue of an open device is empty, it still is after a transmit interrupt.
pub on_transmit-IdleIsEmpty :
    (st : St)
    → IsOpen st
    → IdleIsEmpty st
    → (st' : St) × (on_transmit st ≡ some (tt, st')) × IdleIsEmpty st'
on_transmit-IdleIsEmpty st h empty =
    let (st', run, turn, wq, rx) = on_transmit_lem st h in
    (
      st',
      run,
      Turn-IdleIsEmpty {a = record st { dev = record st.dev { txinprogress = 0 } }} turn empty,
    )

-- A write of any messages to an open device whose queue is empty if it is idle ends without a fault; the device is open
-- still, and its queue empty if it is idle.
pub can_write-IdleIsEmpty :
    (ms : List Msg) (st : St)
    → IsOpen st
    → IdleIsEmpty st
    → (r : Result) × (st' : St) × (can_write true ms st ≡ some (r, st'))
      × IsOpen st'
      × IdleIsEmpty st'
can_write-IdleIsEmpty ms st h empty = elim (ℕ_discrete st.dev.txq.idle 0) [
  | yes busy ↦
      let (st', run, holds, op, same, rx, log, only) = can_write_lem ms st h busy in
      (_, st', run, op, λ ne. absurd (ne same))
  | no idle ↦ started ms idle
]
  where
    started :
        (ms : List Msg)
        → st.dev.txq.idle ≢ 0
        → (r : Result) × (st' : St) × (can_write true ms st ≡ some (r, st'))
          × IsOpen st'
          × IdleIsEmpty st'
    started [] idle = (ok 0, st, unfold can_write write_loop in refl, h, empty)
    started (m ∷ ms) idle =
        let (st1, st', run, turn, one, now, op, busy, log, op1, busy1, vars, only, rx1, stays1) =
          can_write-starts m ms st h idle (empty idle) in
        (_, st', run, op, λ ne. absurd (ne busy))

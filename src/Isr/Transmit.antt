-- ===== src/Isr/Transmit.antt =====
-- What a transmit interrupt, or the work of a timer, does to the transmit queue.
use c4l.Common.{
  ℕ, ◌+◌, ◌≡◌, inl, inr, refl, ◌∙◌, ap, arith, some, List, [], ◌∷◌, ◌++◌, Bool, true, false, leb,
  ◌==◌, if◌then◌else◌, has, ◌>>=?◌,
}
use c4l.Message.{Msg, msg_ext}
use c4l.Msgq.{MsgQ, qlen, qconsume}
use c4l.Msgq.Valid.{IsValid, contents}
use c4l.Msgq.Refine.{idle-IsValid, qconsume_refines}
use c4l.Msgq.Slots.{taken}
use c4l.Machine.{Dev, St, M, ◌>>=◌, >>=-some, with_dev}
use c4l.Chip.Shadow.{written}
use c4l.Frame.{sendcanmsg}
use c4l.Chip.Requests.{SameTimers, requests}
use c4l.Frame.Sent.{Holds}
use c4l.Frame.Delay.{clamped, Sending, sendcanmsg_cases}
use c4l.Frame.Timing.{HasTimer, OwnsTimer, StartsTimer-OwnsTimer}
use c4l.Isr.{consume_tx, wake_if_low, on_transmit, delayedmsgworker}
use c4l.Isr.Safe.{IsOpen, tx_bits, tx_low_lem}

-- The message `m` as it is kept for later.
abbrev pub kept : Msg → Msg
kept m = record (clamped m) { tv_usec = 0 }

abbrev pub SameTimer : St → St → Type 0
SameTimer before after = (after.dev.delayedwork ≡ before.dev.delayedwork) × SameTimers before after

-- What the transmit queue and the controller are after the oldest message had its turn: without one the queue
-- is idle; else it is in the transmit buffer, its transmission is requested and it is gone from the queue, or it
-- stays for a timer.
pub data Turn (before after : St) : Type 0 where
  idles :
      contents tx_bits before.dev.txq ≡ []
      → contents tx_bits after.dev.txq ≡ []
      → after.dev.txq.idle ≡ 1
      → after.log ≡ before.log
      → after.dev.txinprogress ≡ before.dev.txinprogress
      → SameTimer before after
      → Turn before after
  sends :
      (x : Msg) (rest : List Msg)
      → contents tx_bits before.dev.txq ≡ x ∷ rest
      → contents tx_bits after.dev.txq ≡ rest
      → Holds (has x.flags msg_ext) (clamped x) (λ r. written after.log (before.vars.base + r))
      → after.dev.txinprogress ≡ 1
      → after.dev.txq.idle ≡ before.dev.txq.idle
      → requests before.vars.base after.log ≡ requests before.vars.base before.log ++ after.log ∷ []
      → SameTimer before after
      → Turn before after
  keeps :
      (x : Msg) (rest : List Msg)
      → contents tx_bits before.dev.txq ≡ x ∷ rest
      → contents tx_bits after.dev.txq ≡ kept x ∷ rest
      → after.log ≡ before.log
      → after.dev.txinprogress ≡ before.dev.txinprogress
      → after.dev.txq.idle ≡ before.dev.txq.idle
      → (HasTimer before → OwnsTimer after × HasTimer after)
      → Turn before after

abbrev with_queue : St → MsgQ → St
with_queue s q = record s { dev = record s.dev { txq = q } }

abbrev pub TurnOf : St → Type 0
TurnOf st =
    (r : ℕ) × (st' : St) × (consume_tx st ≡ some (r, st'))
    × Turn st st'
    × IsValid tx_bits st'.dev.txq
    × (st'.dev.wq ≡ st.dev.wq)
    × (st'.dev.rxq ≡ st.dev.rxq)
    × (st'.vars ≡ st.vars)

-- One turn of the transmit queue.
pub consume_tx_lem : (st : St) → IsOpen st → TurnOf st
unfolding consume_tx
consume_tx_lem st h =
    elim (qconsume_refines {k = tx_bits} {q = st.dev.txq} sendcanmsg st h.tx_valid) [
      | inl (empty, e) ↦ (
        0,
        with_queue st (record st.dev.txq { idle = 1 }),
        rw e,
        idles empty empty refl refl refl (refl, (refl, refl)),
        idle-IsValid h.tx_valid,
        refl,
        refl,
        refl,
      )
      | inr (x, rest, holds, e, keep) ↦ turn x rest holds e keep (sendcanmsg_cases x st)
    ]
  where
    turn :
        (x : Msg) (rest : List Msg)
        → contents tx_bits st.dev.txq ≡ x ∷ rest
        → qconsume st.dev.txq sendcanmsg st
          ≡ (sendcanmsg x st >>=? λ (r, s'). some (1, taken st.dev.txq r.0 r.1, s'))
        → ((done : ℕ) (m : Msg)
            → IsValid tx_bits (taken st.dev.txq done m)
              × (contents tx_bits (taken st.dev.txq done m)
                  ≡ (if done == 0 then m ∷ rest else rest)))
        → Sending x st
        → TurnOf st
    turn x rest holds e keep (inl (due, (st', run, in_buffer, ev, ed, asked, idly))) = (
      1,
      with_queue st' (taken st.dev.txq 1 (clamped x)),
      rw (e, run),
      sends x rest holds (keep 1 (clamped x)).1 in_buffer (ap (λ (d : Dev). d.txinprogress) ed) refl
          asked (ap (λ (d : Dev). d.delayedwork) ed, idly),
      (keep 1 (clamped x)).0,
      ap (λ (d : Dev). d.wq) ed,
      ap (λ (d : Dev). d.rxq) ed,
      ev,
    )
    turn x rest holds e keep
          (inr (inl (d, delayed, left, wait, (st', run, el, ev, ed, later, timer)))) =
        (
          1,
          with_queue st' (taken st.dev.txq 0 (kept x)),
          rw (e, run),
          keeps x rest holds (keep 0 (kept x)).1 el (ap (λ (d : Dev). d.txinprogress) ed) refl
              (λ h. let (starts, has) = timer h in (StartsTimer-OwnsTimer d st' starts, has)),
          (keep 0 (kept x)).0,
          ap (λ (d : Dev). d.wq) ed,
          ap (λ (d : Dev). d.rxq) ed,
          ev,
        )
    turn x rest holds e keep (inr (inr (fault, ne, zero))) = absurd (h.baud_set zero)

-- One wake-up is made if the queue is low.
wake_if_low_lem :
    (st : St)
    → IsValid tx_bits st.dev.txq
    → wake_if_low st
      ≡ some (
        tt,
        record st {
          dev = record st.dev { wq = st.dev.wq + (if leb (qlen st.dev.txq) 64 then 1 else 0) };
        },
      )
unfolding wake_if_low
wake_if_low_lem st v = rw (tx_low_lem st.dev.txq v) (woken (leb (qlen st.dev.txq) 64))
  where
    woken :
        (low : Bool)
        → with_dev (λ d. if low then record d { wq = d.wq + 1 } else d) st
          ≡ some (tt, record st { dev = record st.dev { wq = st.dev.wq + (if low then 1 else 0) } })
    woken true = refl
    woken false =
        ap (λ (n : ℕ). some (tt, record st { dev = record st.dev { wq = n } })) (omega arith)

-- A turn, and then a wake-up of the writers if at most half of the slots are still in use.
abbrev pub TurnsAndWakes : M (Unit {0}) → St → St → Type 0
TurnsAndWakes m st before =
    (st' : St) × (m st ≡ some (tt, st'))
    × Turn before st'
    × (st'.dev.wq ≡ before.dev.wq + (if leb (qlen st'.dev.txq) 64 then 1 else 0))
    × (st'.dev.rxq ≡ before.dev.rxq)

same-Turn : {a b : St} (w : ℕ) → Turn a b → Turn a (record b { dev = record b.dev { wq = w } })
same-Turn w (idles a b c d e f) = idles a b c d e f
same-Turn w (sends x r a b c d e f g) = sends x r a b c d e f g
same-Turn w (keeps x r a b c d e f) = keeps x r a b c d e f

turn_and_wake : (st : St) → IsOpen st → TurnsAndWakes (consume_tx >>= λ _. wake_if_low) st st
turn_and_wake st h =
    let (r, st', run, turn, valid, wq, rx, vars) = consume_tx_lem st h in
    (
      record st' {
        dev = record st'.dev { wq = st'.dev.wq + (if leb (qlen st'.dev.txq) 64 then 1 else 0) };
      },
      >>=-some consume_tx (λ _. wake_if_low) {st = st} run ∙ wake_if_low_lem st' valid,
      same-Turn (st'.dev.wq + (if leb (qlen st'.dev.txq) 64 then 1 else 0)) turn,
      ap (λ n. n + (if leb (qlen st'.dev.txq) 64 then 1 else 0)) wq,
      rx,
    )

-- On an open device, the work of a timer gives the oldest message its turn, and wakes the writers if at most half of the
-- slots are still in use.
pub delayedmsgworker_lem : (st : St) → IsOpen st → TurnsAndWakes delayedmsgworker st st
unfolding delayedmsgworker
delayedmsgworker_lem st h = turn_and_wake st h

-- On an open device, a transmit interrupt ends the transmission in progress and gives the oldest message its turn: it is
-- sent and leaves the queue, or stays for a timer, or without one the queue is idle. The writers are woken if at most half of the
-- slots are still in use.
pub on_transmit_lem :
    (st : St)
    → IsOpen st
    → TurnsAndWakes on_transmit st (record st { dev = record st.dev { txinprogress = 0 } })
unfolding on_transmit
on_transmit_lem st h =
    turn_and_wake (record st { dev = record st.dev { txinprogress = 0 } })
      (record { rx_valid = h.rx_valid; tx_valid = h.tx_valid; baud_set = h.baud_set })

-- ===== src/Isr/Safe.antt =====
-- The parts of the interrupt handler that use a queue keep it valid, and run without a fault.
use c4l.Common.{
  ℕ, ◌+◌, ◌≡◌, ◌≢◌, inl, inr, refl, ◌∙◌, ap, sym, subst, arith, Option, some, Bool, true, false,
  ◌==◌, leb, if◌then◌else◌, Bool-cases,
}
use c4l.Message.{Msg}
use c4l.Msgq.{MsgQ, qlen, qsize}
use c4l.Msgq.Valid.{IsValid}
use c4l.Msgq.Refine.{idle-IsValid, qproduce_refines, qconsume_refines}
use c4l.Msgq.Slots.{stored, taken, free_slot}
use c4l.Machine.{St, M, ◌>>=◌, >>=-some, with_dev}
use c4l.Frame.{sendcanmsg}
use c4l.Isr.{produce_rx, consume_tx, rxproduce, tx_low, wake_if_low, clear_if_overrun}
use c4l.Isr.Calm.{
  Calm, CalmAt, Stays, Stays-refl, Stays-trans, calm, can_in-Calm, can_out-Calm, can_reset-Calm,
  readcanmsg-Calm, errmsg-Calm, sendcanmsg-Calm, modify-Calm,
}

-- The sizes of the queues, as powers of 2.
abbrev pub rx_bits : ℕ
rx_bits = 11

abbrev pub tx_bits : ℕ
tx_bits = 7

-- The state that `can_open` sets up and every call keeps.
pub record IsOpen (st : St) : Type 0 where
  pub rx_valid : IsValid rx_bits st.dev.rxq
  pub tx_valid : IsValid tx_bits st.dev.txq
  pub baud_set : st.vars.baud ≢ 0

abbrev pub SafeAt : {A : Type 0} → M A → St → Type 0
SafeAt {A} m st = (a : A) × (st' : St) × (m st ≡ some (a, st')) × Stays st st' × IsOpen st'

pub record Safe {A : Type 0} (m : M A) : Type 0 where
  pub at : (st : St) → IsOpen st → SafeAt m st

pub >>=-Safe :
    {A B : Type 0} (m : M A) (f : A → M B) → Safe m → ((a : A) → Safe (f a)) → Safe (m >>= f)
>>=-Safe {A} {B} m f p q = record { at = go }
  where
    go : (st : St) → IsOpen st → SafeAt (m >>= f) st
    go st h =
        let (a, st1, run1, stays1, open1) = p.at st h in
        let (b, st2, run2, stays2, open2) = (q a).at st1 open1 in
        (b, st2, >>=-some m f run1 ∙ run2, Stays-trans stays1 stays2, open2)

-- The queues are valid if they are the same.
pub still-IsOpen :
    {st st' : St}
    → IsOpen st
    → Stays st st'
    → st'.dev.rxq ≡ st.dev.rxq
    → st'.dev.txq ≡ st.dev.txq
    → IsOpen st'
still-IsOpen h s rx tx = record {
  rx_valid = subst (IsValid rx_bits) (sym rx) h.rx_valid;
  tx_valid = subst (IsValid tx_bits) (sym tx) h.tx_valid;
  baud_set = λ e. h.baud_set (sym s.baud_same ∙ e);
}

pub Calm-Safe : {A : Type 0} (m : M A) → Calm m → Safe m
Calm-Safe m p = record {
  at = λ st h.
      let (a, st', run, s, rx, tx) = p.at st h.baud_set in (a, st', run, s, still-IsOpen h s rx tx);
}

pub if-Safe : {A : Type 0} (b : Bool) (m n : M A) → Safe m → Safe n → Safe (if b then m else n)
if-Safe true m n p q = p
if-Safe false m n p q = q

same_end :
    {A : Type 0} {a a' : A} {s s' : St}
    → ◌≡◌ {A = Option (A × St)} (some (a, s)) (some (a', s'))
    → s ≡ s'
same_end e = cc

-- What is known of a safe run is known of each way to write it.
pub Safe-end :
    {A : Type 0} {m : M A} {a : A} {st st' : St}
    → Safe m
    → IsOpen st
    → m st ≡ some (a, st')
    → Stays st st' × IsOpen st'
Safe-end {A} {m} {a} {st} p op run =
    let (a', s, run', stays, op') = p.at st op in
    subst (λ (x : St). Stays st x × IsOpen x) (same_end (sym run' ∙ run)) (stays, op')

-- The same accesses and settings, up to what the queue holds.
rx-Stays : {a b : St} (q : MsgQ) → Stays a b → Stays a (record b { dev = record b.dev { rxq = q } })
rx-Stays q s = record {
  env_same = s.env_same;
  base_same = s.base_same;
  baud_same = s.baud_same;
  reads_more = s.reads_more;
}

tx-Stays : {a b : St} (q : MsgQ) → Stays a b → Stays a (record b { dev = record b.dev { txq = q } })
tx-Stays q s = record {
  env_same = s.env_same;
  base_same = s.base_same;
  baud_same = s.baud_same;
  reads_more = s.reads_more;
}

produce_rx-SafeAt :
    (f : Msg → M Msg) → ((m : Msg) → Calm (f m)) → (st : St) → IsOpen st → SafeAt (produce_rx f) st
unfolding produce_rx
produce_rx-SafeAt f p st h =
    elim (qproduce_refines {k = rx_bits} {q = st.dev.rxq} f st h.rx_valid) [
      | inl (full, e) ↦ (0, st, rw e, Stays-refl st, h)
      | inr (room, e, keep) ↦
          let (m, st', run, s, rx, tx) = (p (free_slot st.dev.rxq)).at st h.baud_set in
          let q = stored st.dev.rxq m in
          (
            1,
            record st' { dev = record st'.dev { rxq = q } },
            rw (e, run),
            rx-Stays q s,
            record {
              rx_valid = (keep m).0;
              tx_valid = (still-IsOpen h s rx tx).tx_valid;
              baud_set = (still-IsOpen h s rx tx).baud_set;
            },
          )
    ]

consume_tx-SafeAt : (st : St) → IsOpen st → SafeAt consume_tx st
unfolding consume_tx
consume_tx-SafeAt st h =
    elim (qconsume_refines {k = tx_bits} {q = st.dev.txq} sendcanmsg st h.tx_valid) [
      | inl (empty, e) ↦
          let q : MsgQ = record st.dev.txq { idle = 1 } in
          (
            0,
            record st { dev = record st.dev { txq = q } },
            rw e,
            tx-Stays q (Stays-refl st),
            record {
              rx_valid = h.rx_valid;
              tx_valid = idle-IsValid h.tx_valid;
              baud_set = h.baud_set;
            },
          )
      | inr (x, rest, holds, e, keep) ↦
          let ((done, m), st', run, s, rx, tx) = (sendcanmsg-Calm x).at st h.baud_set in
          let q = taken st.dev.txq done m in
          (
            1,
            record st' { dev = record st'.dev { txq = q } },
            rw (e, run),
            tx-Stays q s,
            record {
              rx_valid = (still-IsOpen h s rx tx).rx_valid;
              tx_valid = (keep done m).0;
              baud_set = (still-IsOpen h s rx tx).baud_set;
            },
          )
    ]

pub consume_tx-Safe : Safe consume_tx
consume_tx-Safe = record { at = consume_tx-SafeAt }

produce_rx-Safe : (f : Msg → M Msg) → ((m : Msg) → Calm (f m)) → Safe (produce_rx f)
produce_rx-Safe f p = record { at = produce_rx-SafeAt f p }

pub rxproduce-Safe : (f : Msg → M Msg) → ((m : Msg) → Calm (f m)) → Safe (rxproduce f)
unfolding rxproduce
rxproduce-Safe f p = >>=-Safe _ _ (produce_rx-Safe f p) (λ r. Calm-Safe _ (
    modify-Calm _ (λ d. elim (Bool-cases (r == 0)) [
      | inl lost ↦ (rw lost, rw lost)
      | inr done ↦ (rw done, rw done)
    ])))

-- The transmit queue counts as low when at most half of its 128 slots are in use.
pub tx_low_lem : (q : MsgQ) → IsValid tx_bits q → tx_low q ≡ some (leb (qlen q) 64)
unfolding tx_low qlen qsize
tx_low_lem q v = rw v.mask_of (ap some (ground (arith, v.fits)))

wake_if_low-SafeAt : (st : St) → IsOpen st → SafeAt wake_if_low st
unfolding wake_if_low
wake_if_low-SafeAt st h = rw (tx_low_lem st.dev.txq h.tx_valid) (woken (leb (qlen st.dev.txq) 64))
  where
    woken : (low : Bool) → SafeAt (with_dev (λ d. if low then record d { wq = d.wq + 1 } else d)) st
    woken true =
        (Calm-Safe _ (modify-Calm (λ d. record d { wq = d.wq + 1 }) (λ d. (refl, refl)))).at st h
    woken false = (tt, st, refl, Stays-refl st, h)

pub wake_if_low-Safe : Safe wake_if_low
wake_if_low-Safe = record { at = wake_if_low-SafeAt }

pub ruleset safe = (>>=-Safe, Calm-Safe, if-Safe, calm, can_reset-Calm)

pub clear_if_overrun-Calm : (s : ℕ) → Calm (clear_if_overrun s)
unfolding clear_if_overrun
clear_if_overrun-Calm s = search calm

-- ===== src/Session/Live.antt =====
-- Parts of the driver that keep the transmit queue running and in order.
use c4l.Common.{
  ℕ, ◌+◌, ◌≡◌, inl, inr, refl, ◌∙◌, sym, subst, arith, [], ◌∷◌, ◌++◌, Bool, true, false, some, ◌==◌,
  if◌then◌else◌, not, ◌&&◌, has, bit_or, Bool-cases,
}
use c4l.Message.{Msg}
use c4l.Msgq.{MsgQ}
use c4l.Msgq.Refine.{qproduce_refines}
use c4l.Msgq.Slots.{stored, free_slot}
use c4l.Msgq.Valid.{IsValid, contents}
use c4l.Machine.{St, M, pure, ◌>>=◌, >>=-some, with_dev}
use c4l.Register
use c4l.Chip.{can_in}
use c4l.Chip.Requests.{Quiet, QuietAt, Same, Same-refl}
use c4l.Chip.Quiet.{quiet, can_reset-Quiet}
use c4l.Isr.{produce_rx, rxproduce, rx_result, fake_tx, undo_reset, clear_if_overrun}
use c4l.Isr.Safe.{IsOpen, rx_bits, tx_bits}
use c4l.Session.Received.{
  unread, Gathers, Gathers-trans, Later-Gathers, Later-refl, rx-Later, Same-Later, IsMade, Makes,
}
use c4l.Session.Running.{
  Loose, Carries, Carries-trans, Untouched, Untouched-Loose, Untouched-Carries,
}

abbrev pub LiveAt : {A : Type 0} → Bool → Bool → M A → St → Type 0
LiveAt {A} w v m st =
    (a : A) × (st' : St) × (m st ≡ some (a, st'))
    × Loose w v st'
    × Carries [] st st'
    × Gathers [] st st'

pub record Live {A : Type 0} (m : M A) : Type 0 where
  pub at : (w v : Bool) (st : St) → Loose w v st → LiveAt w v m st

pub >>=-Live :
    {A B : Type 0} (m : M A) (f : A → M B) → Live m → ((a : A) → Live (f a)) → Live (m >>= f)
>>=-Live {A} {B} m f p q = record { at = go }
  where
    go : (w v : Bool) (st : St) → Loose w v st → LiveAt w v (m >>= f) st
    go w v st h =
        let (a, st1, run1, h1, c1, g1) = p.at w v st h in
        let (b, st2, run2, h2, c2, g2) = (q a).at w v st1 h1 in
        (b, st2, >>=-some m f run1 ∙ run2, h2, Carries-trans c1 c2, Gathers-trans g1 g2)

pub if-Live : {A : Type 0} (b : Bool) (m n : M A) → Live m → Live n → Live (if b then m else n)
if-Live true m n p q = p
if-Live false m n p q = q

pub Same-Untouched : {a b : St} → Same a b → Untouched a b
Same-Untouched s = record {
  base_same = s.base_same;
  tx_same = s.tx_same;
  progress_same = s.progress_same;
  work_same = s.work_same;
  timers_same = s.timers_same;
  no_request = s.no_request;
}

pub Same-IsOpen : {a b : St} → Same a b → IsOpen a → IsOpen b
Same-IsOpen s op = record {
  rx_valid = subst (IsValid rx_bits) (sym s.rx_same) op.rx_valid;
  tx_valid = subst (IsValid tx_bits) (sym s.tx_same) op.tx_valid;
  baud_set = s.rated op.baud_set;
}

pub Quiet-Live : {A : Type 0} (m : M A) → Quiet m → Live m
Quiet-Live m p = record {
  at = λ w v st h.
      let (a, st', run, same) = p.at st in
      let u = Same-Untouched same in
      (
        a,
        st',
        run,
        Untouched-Loose h (Same-IsOpen same h.opened) u,
        Untouched-Carries u,
        Later-Gathers (Same-Later same) same.rx_same,
      );
}

pub ruleset live = (>>=-Live, if-Live, Quiet-Live, quiet)

-- The receive queue may change.
rx_changed :
    {a b : St} (q : MsgQ) → Same a b → Untouched a (record b { dev = record b.dev { rxq = q } })
rx_changed q s = record {
  base_same = s.base_same;
  tx_same = s.tx_same;
  progress_same = s.progress_same;
  work_same = s.work_same;
  timers_same = s.timers_same;
  no_request = s.no_request;
}

-- A message is received.
one_received :
    {st st' : St} (m : Msg) (q : MsgQ)
    → IsMade m st st'
    → contents rx_bits q ≡ unread st ++ m ∷ []
    → Gathers [] st (record st' { dev = record st'.dev { rxq = q } })
one_received {st} {st'} m q made holds = record {
  received = m ∷ [];
  made = (st, st', Later-refl st, made, rx-Later st' q);
  rx_order = sym holds;
}

produce_rx-LiveAt :
    (f : Msg → M Msg)
    → ((m : Msg) → Quiet (f m))
    → Makes f
    → (w v : Bool) (st : St) → Loose w v st
    → LiveAt w v (produce_rx f) st
unfolding produce_rx
produce_rx-LiveAt f p makes w v st h =
    elim (qproduce_refines {k = rx_bits} {q = st.dev.rxq} f st h.opened.rx_valid) [
      | inl (full, e) ↦ (
        0,
        st,
        rw e,
        h,
        Untouched-Carries (Same-Untouched (Same-refl st)),
        Later-Gathers (Later-refl st) refl,
      )
      | inr (room, e, keep) ↦
          let (m, st', run, same) = (p (free_slot st.dev.rxq)).at st in
          let q = stored st.dev.rxq m in
          let op = Same-IsOpen same h.opened in
          let u = rx_changed q same in
          let op' : IsOpen (record st' { dev = record st'.dev { rxq = q } }) = record {
            rx_valid = (keep m).0;
            tx_valid = op.tx_valid;
            baud_set = op.baud_set;
          } in
          (
            1,
            record st' { dev = record st'.dev { rxq = q } },
            rw (e, run),
            Untouched-Loose h op' u,
            Untouched-Carries u,
            one_received m q (makes _ m st st' run) (keep m).1,
          )
    ]

produce_rx-Live : (f : Msg → M Msg) → ((m : Msg) → Quiet (f m)) → Makes f → Live (produce_rx f)
produce_rx-Live f p makes = record { at = produce_rx-LiveAt f p makes }

rx_status-Quiet : (r : ℕ) → Quiet (with_dev (rx_result r))
rx_status-Quiet r = elim (Bool-cases (r == 0)) [
  | inl lost ↦ record { at = λ st. rw lost (_, _, refl, unchanged st 2 st.dev.wq) }
  | inr done ↦ record { at = λ st. rw done (_, _, refl, unchanged st 1 (st.dev.wq + 1)) }
]
  where
    unchanged :
        (st : St) (s w : ℕ) → Same st (record st { dev = record st.dev { rxstatus = s; wq = w } })
    unchanged st s w = record {
      env_same = refl;
      base_same = refl;
      rx_same = refl;
      tx_same = refl;
      progress_same = refl;
      work_same = refl;
      timers_same = (refl, refl);
      rated = λ h. h;
      no_request = refl;
      reads_more = λ port. omega arith;
    }

pub rxproduce-Live : (f : Msg → M Msg) → ((m : Msg) → Quiet (f m)) → Makes f → Live (rxproduce f)
unfolding rxproduce
rxproduce-Live f p makes =
    >>=-Live _ _ (produce_rx-Live f p makes) (λ r. Quiet-Live _ (rx_status-Quiet r))

pub undo_reset-Quiet : (mode : ℕ) → Quiet (undo_reset mode)
unfolding undo_reset
undo_reset-Quiet mode = search (quiet, can_reset-Quiet)

pub clear_if_overrun-Quiet : (s : ℕ) → Quiet (clear_if_overrun s)
unfolding clear_if_overrun
clear_if_overrun-Quiet s = search quiet

fake_tx-QuietAt : (src : ℕ) (st : St) → QuietAt (fake_tx src) st
unfolding fake_tx
fake_tx-QuietAt src st =
    elim (Bool-cases (not (st.dev.txinprogress == 0) && not (has src Register.can_transmit_int))) [
      | inl stuck ↦ rw stuck (look.at st)
      | inr fine ↦ (src, st, rw fine, Same-refl st)
    ]
  where
    look : Quiet (
        can_in Register.canstat >>= λ s. pure (
          if has s Register.can_transmit_buffer_access
          then bit_or src Register.can_transmit_int
          else src))
    look = search quiet

pub fake_tx-Quiet : (src : ℕ) → Quiet (fake_tx src)
fake_tx-Quiet src = record { at = fake_tx-QuietAt src }

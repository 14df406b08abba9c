-- ===== src/Session/Running.antt =====
-- The state of a running transmit queue, and the messages that leave it.
use c4l.Common.{
  Bool, true, get_elem?, ℕ, ◌+◌, ◌≡◌, ◌⊎◌, inl, inr, refl, ◌∙◌, sym, ap, subst, List, [], ◌∷◌, ◌++◌,
  map, has,
}
use mathlib.Core.List.{map-append, append_assoc, append-nil}
use c4l.Message.{Msg, msg_ext}
use c4l.Msgq.Valid.{contents}
use c4l.Machine.{Access, Timer, St}
use c4l.Chip.Shadow.{written}
use c4l.Chip.Requests.{SameTimers, requests}
use c4l.Frame.Sent.{Holds}
use c4l.Frame.Timing.{HasTimer, HasTimer-same, OwnsTimer}
use c4l.Isr.Safe.{IsOpen, tx_bits}
use c4l.Isr.Transmit.{kept}
use c4l.File.Idle.{IdleIsEmpty}

-- The messages of the transmit queue, the oldest first.
abbrev pub waiting : St → List Msg
waiting st = contents tx_bits st.dev.txq

-- Something is to come that gives the next message its turn: the driver waits for the interrupt of a transmission that it has
-- requested, or the device's timer is armed, for a first message that waits for nothing else.
abbrev pub Moves : St → Type 0
Moves st =
    (st.dev.txinprogress ≡ 1)
    ⊎ ((x : Msg) × (rest : List Msg) × (waiting st ≡ x ∷ rest) × (x.tv_usec ≡ 0) × OwnsTimer st)

-- An open device. If `whole`, its transmit queue is empty if it is idle; if `moving`, it moves if it is not.
pub record Loose (whole moving : Bool) (st : St) : Type 0 where
  pub opened : IsOpen st
  pub empty : whole ≡ true → IdleIsEmpty st
  pub moves : moving ≡ true → st.dev.txq.idle ≡ 0 → Moves st
  pub timer : HasTimer st

-- An open device whose transmit queue is empty if it is idle, and moves if it is not.
abbrev pub Running : St → Type 0
Running st = Loose true true st

-- At each of the requests `logs` the transmit buffer held the frame of the message in the same place of the list.
abbrev pub Loaded : ℕ → List (List Access) → List Msg → Type 0
Loaded base [] [] = Unit {0}
Loaded base [] (m ∷ ms) = ⊥
Loaded base (log ∷ logs) [] = ⊥
Loaded base (log ∷ logs) (m ∷ ms) =
    Holds (has m.flags msg_ext) m (λ r. written log (base + r)) × Loaded base logs ms

Loaded-append :
    (base : ℕ) (logs logs' : List (List Access)) (ms ms' : List Msg)
    → Loaded base logs ms
    → Loaded base logs' ms'
    → Loaded base (logs ++ logs') (ms ++ ms')
Loaded-append base [] logs' [] ms' p q = q
Loaded-append base [] logs' (m ∷ ms) ms' p q = absurd p
Loaded-append base (log ∷ logs) logs' [] ms' p q = absurd p
Loaded-append base (log ∷ logs) logs' (m ∷ ms) ms' p q =
    (p.0, Loaded-append base logs logs' ms ms' p.1 q)

-- From `a` to `b` the messages `taken` were accepted, and the messages `sent` were sent: together with what was waiting
-- and what still is, these are the same messages in the same order.
pub record Carries (accepted : List Msg) (a b : St) : Type 0 where
  pub logs : List (List Access)
  pub sent : List Msg
  pub base_same : b.vars.base ≡ a.vars.base
  pub asked : requests a.vars.base b.log ≡ requests a.vars.base a.log ++ logs
  pub loaded : Loaded a.vars.base logs sent
  pub in_order : map kept (waiting a ++ accepted) ≡ sent ++ map kept (waiting b)

pub Carries-trans :
    {ms ms' : List Msg} {a b c : St} → Carries ms a b → Carries ms' b c → Carries (ms ++ ms') a c
Carries-trans {ms} {ms'} {a} {b} {c} p q = record {
  logs = p.logs ++ q.logs;
  sent = p.sent ++ q.sent;
  base_same = q.base_same ∙ p.base_same;
  asked =
      subst (λ (n : ℕ). requests n c.log ≡ requests n b.log ++ q.logs) p.base_same q.asked
      ∙ ap (λ l. l ++ q.logs) p.asked
      ∙ append_assoc _ p.logs q.logs;
  loaded =
      Loaded-append a.vars.base p.logs q.logs p.sent q.sent p.loaded
        (subst (λ (n : ℕ). Loaded n q.logs q.sent) p.base_same q.loaded);
  in_order =
      ap (map kept) (sym (append_assoc (waiting a) ms ms'))
      ∙ map-append kept (waiting a ++ ms) ms'
      ∙ ap (λ l. l ++ map kept ms') p.in_order
      ∙ append_assoc p.sent (map kept (waiting b)) (map kept ms')
      ∙ ap (λ l. p.sent ++ l) (sym (map-append kept (waiting b) ms') ∙ q.in_order)
      ∙ sym (append_assoc p.sent q.sent (map kept (waiting c)));
}

pub Carries-refl : (st : St) → Carries [] st st
Carries-refl st = record {
  logs = [];
  sent = [];
  base_same = refl;
  asked = sym (append-nil _);
  loaded = tt;
  in_order = ap (map kept) (append-nil (waiting st));
}

-- What leaves the transmit side alone.
pub record Untouched (a b : St) : Type 0 where
  pub base_same : b.vars.base ≡ a.vars.base
  pub tx_same : b.dev.txq ≡ a.dev.txq
  pub progress_same : b.dev.txinprogress ≡ a.dev.txinprogress
  pub work_same : b.dev.delayedwork ≡ a.dev.delayedwork
  pub timers_same : SameTimers a b
  pub no_request : requests a.vars.base b.log ≡ requests a.vars.base a.log

-- The transmit side as far as `Moves` sees it.
pub still-Moves :
    (a b : St) (x : Msg) (rest : List Msg)
    → b.dev.delayedwork ≡ a.dev.delayedwork
    → b.dly ≡ a.dly
    → waiting b ≡ x ∷ rest
    → x.tv_usec ≡ 0
    → OwnsTimer a
    → Moves b
still-Moves a b x rest work same holds now (i, t, own, here, armed) = inr (
  x,
  rest,
  holds,
  now,
  (i, t, work ∙ own, ap (λ (l : List Timer). get_elem? l i) same ∙ here, armed),
)

pub Untouched-Loose : {w v : Bool} {a b : St} → Loose w v a → IsOpen b → Untouched a b → Loose w v b
Untouched-Loose {w} {v} {a} {b} r op u = record {
  opened = op;
  empty = λ is ne.
      ap (contents tx_bits) u.tx_same ∙ r.empty is (λ e. ne (ap (λ q. q.idle) u.tx_same ∙ e));
  moves = λ is e. elim (r.moves is (sym (ap (λ q. q.idle) u.tx_same) ∙ e)) [
    | inl p ↦ inl (u.progress_same ∙ p)
    | inr (x, rest, holds, now, own) ↦
        still-Moves a b x rest u.work_same u.timers_same.1 (ap (contents tx_bits) u.tx_same ∙ holds)
          now own
  ];
  timer = HasTimer-same a b r.timer u.work_same u.timers_same;
}

pub Untouched-Carries : {a b : St} → Untouched a b → Carries [] a b
Untouched-Carries {a} {b} u = record {
  logs = [];
  sent = [];
  base_same = u.base_same;
  asked = u.no_request ∙ sym (append-nil _);
  loaded = tt;
  in_order = ap (map kept) (append-nil (waiting a) ∙ ap (contents tx_bits) (sym u.tx_same));
}

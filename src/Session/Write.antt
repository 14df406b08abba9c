-- ===== src/Session/Write.antt =====
-- A write keeps the transmit queue running, and what it accepts comes after what was waiting.
use native.Mathlib.Decide.{ℕ_discrete}
use mathlib.Core.List.{append-nil}
use c4l.Common.{
  ℕ, zero, suc, ◌+◌, ◌≤◌, ◌≡◌, ◌≢◌, inl, inr, refl, ◌∙◌, sym, ap, subst, arith, some, List, [], ◌∷◌,
  ◌++◌, map, true, length, take,
}
use c4l.Message.{Msg}
use c4l.Machine.{Vars, St, Result, ok, err}
use c4l.Chip.Requests.{requests}
use c4l.File.{can_write, write_loop}
use c4l.File.Write.{room, with_tx, can_write_lem}
use c4l.File.Start.{woken_with, can_write-starts}
use c4l.Frame.Timing.{HasTimer-same}
use c4l.Isr.Calm.{Stays}
use c4l.Session.Received.{Later, Later-refl, Later-trans, Gathers, Later-Gathers}
use c4l.Isr.Safe.{IsOpen}
use c4l.Isr.Transmit.{kept}
use c4l.Session.{accepted}
use c4l.Session.Running.{waiting, still-Moves, Running, Carries, Carries-trans}
use c4l.Session.Turns.{Turn-Loose, Turn-Carries}

take-length : (n : ℕ) (ms : List Msg) → take (length (take n ms)) ms ≡ take n ms
take-length zero ms = refl
take-length (suc n) [] = refl
take-length (suc n) (m ∷ ms) = ap (◌∷◌ m) (take-length n ms)

-- Messages are appended to a queue that moves.
module _ {a b : St} (ms : List Msg) (only : b ≡ with_tx a b.dev.txq)
    (holds : waiting b ≡ waiting a ++ ms) where
  appended-Carries : Carries ms a b
  appended-Carries = record {
    logs = [];
    sent = [];
    base_same = ap (λ (s : St). s.vars.base) only;
    asked = ap (λ (s : St). requests a.vars.base s.log) only ∙ sym (append-nil _);
    loaded = tt;
    in_order = ap (map kept) (sym holds);
  }

  appended-Running : IsOpen b → b.dev.txq.idle ≡ 0 → a.dev.txq.idle ≡ 0 → Running a → Running b
  appended-Running op busy was_busy h = record {
    opened = op;
    empty = λ is ne. absurd (ne busy);
    moves = λ is e. elim (h.moves refl was_busy) [
      | inl p ↦ inl (ap (λ (s : St). s.dev.txinprogress) only ∙ p)
      | inr (x, rest, first, now, own) ↦
          still-Moves a b x (rest ++ ms) (ap (λ (s : St). s.dev.delayedwork) only)
            (ap (λ (s : St). s.dly) only) (holds ∙ ap (λ l. l ++ ms) first) now own
    ];
    timer =
        HasTimer-same a b h.timer (ap (λ (s : St). s.dev.delayedwork) only)
          (ap (λ (s : St). s.idly) only, ap (λ (s : St). s.dly) only);
  }

tx_only-Later : {a b : St} → b ≡ with_tx a b.dev.txq → Later a b
tx_only-Later {a} {b} only =
    subst (λ (s : St). Later a s) (sym only)
      (record { env_same = refl; base_same = refl; reads_more = λ port. omega arith })

-- The number that a write returns is at most that of the messages of the buffer.
abbrev pub AtMost : List Msg → Result → Type 0
AtMost ms (ok n) = n ≤ length ms
AtMost ms (err e) = ⊥

length-take : (n : ℕ) (ms : List Msg) → length (take n ms) ≤ length ms
length-take zero ms = omega arith
length-take (suc n) [] = omega arith
length-take (suc n) (m ∷ ms) = omega (arith, length-take n ms)

abbrev pub WritesAt : List Msg → St → Type 0
WritesAt ms st =
    (r : Result) × (st' : St) × (can_write true ms st ≡ some (r, st'))
    × Running st'
    × Carries (accepted ms r) st st'
    × Gathers [] st st'
    × AtMost ms r

writes_busy : (ms : List Msg) (st : St) → Running st → st.dev.txq.idle ≡ 0 → WritesAt ms st
writes_busy ms st h busy =
    let (st', run, holds, op, same, rx, log, only) = can_write_lem ms st h.opened busy in
    let all : waiting st' ≡ waiting st ++ take (length (take (room st) ms)) ms =
      holds ∙ ap (λ l. waiting st ++ l) (sym (take-length (room st) ms)) in
    (
      ok (length (take (room st) ms)),
      st',
      run,
      appended-Running _ only holds op same busy h,
      appended-Carries _ only all,
      Later-Gathers (tx_only-Later only) rx,
      length-take (room st) ms,
    )

-- The first message is put into an empty queue.
first-Carries :
    (m : Msg) (st : St)
    → waiting st ≡ []
    → waiting (woken_with m st) ≡ m ∷ []
    → Carries (m ∷ []) st (woken_with m st)
first-Carries m st empty one = record {
  logs = [];
  sent = [];
  base_same = refl;
  asked = sym (append-nil _);
  loaded = tt;
  in_order = ap (map kept) (ap (λ l. l ++ m ∷ []) empty ∙ sym one);
}

writes_idle : (ms : List Msg) (st : St) → Running st → st.dev.txq.idle ≢ 0 → WritesAt ms st
writes_idle [] st h idle = (
  ok 0,
  st,
  unfold can_write write_loop in refl,
  h,
  record {
    logs = [];
    sent = [];
    base_same = refl;
    asked = sym (append-nil _);
    loaded = tt;
    in_order = ap (map kept) (append-nil _);
  },
  Later-Gathers (Later-refl st) refl,
  omega arith,
)
writes_idle (m ∷ ms) st h idle =
    let (st1, st', run, turn, one, now, op, busy, log, op1, busy1, vars1, only, rx1, stays1) =
      can_write-starts m ms st h.opened idle (h.empty refl idle) in
    let rest = take (room st1) ms in
    let base1 : st1.vars.base ≡ st.vars.base = ap (λ (v : Vars). v.base) vars1 in
    let h1 : Running st1 =
      Turn-Loose {a = woken_with m st} (λ is ne. absurd (ne refl)) h.timer turn op1 in
    let c1 : Carries (m ∷ []) st st1 =
      Carries-trans (first-Carries m st (h.empty refl idle) one) (Turn-Carries base1 turn) in
    let c2 : Carries rest st1 st' = appended-Carries rest only now in
    (
      ok (length rest + 1),
      st',
      run,
      appended-Running rest only now op busy busy1 h1,
      subst (λ l. Carries l st st') (sym (shape (room st1) m ms)) (Carries-trans c1 c2),
      Later-Gathers (Later-trans (woken-Later stays1) (tx_only-Later only))
          (ap (λ (s : St). s.dev.rxq) only ∙ rx1),
      omega (arith, length-take (room st1) ms),
    )
  where
    woken-Later : {s : St} → Stays (woken_with m st) s → Later st s
    woken-Later s = record {
      env_same = s.env_same;
      base_same = s.base_same;
      reads_more = s.reads_more;
    }

    add_one : (n : ℕ) → n + 1 ≡ suc n
    add_one n = omega arith

    shape :
        (n : ℕ) (m : Msg) (ms : List Msg)
        → accepted (m ∷ ms) (ok (length (take n ms) + 1)) ≡ m ∷ take n ms
    shape n m ms =
        ap (λ (k : ℕ). take k (m ∷ ms)) (add_one (length (take n ms)))
        ∙ ap (◌∷◌ m) (take-length n ms)

-- A write to a running queue.
pub can_write-Carries : (ms : List Msg) (st : St) → Running st → WritesAt ms st
can_write-Carries ms st h = elim (ℕ_discrete st.dev.txq.idle 0) [
  | yes busy ↦ writes_busy ms st h busy
  | no idle ↦ writes_idle ms st h idle
]

-- ===== src/Session/Within/Steps.antt =====
-- A write with other calls between its steps keeps the transmit queue running, and what it accepts comes after what was
-- waiting.
use native.Mathlib.Decide.{ℕ_discrete}
use mathlib.Core.List.{append-nil}
use c4l.Common.{
  ℕ, suc, ◌+◌, ◌≤◌, ◌≡◌, ◌≢◌, inl, inr, refl, ◌∙◌, sym, ap, subst, arith, some, List, [], ◌∷◌, ◌++◌,
  map, true, false, length, take, ◌==◌,
}
use c4l.Message.{Msg}
use c4l.Machine.{Vars, Access, St, M, pure, ◌>>=◌, >>=-some}
use c4l.Msgq.Valid.{IsValid, contents}
use c4l.Msgq.Slots.{stored}
use c4l.Chip.Requests.{requests}
use c4l.File.{produce_tx}
use c4l.File.Write.{queued, puts_one}
use c4l.Isr.{consume_tx}
use c4l.Isr.Safe.{Safe-end, consume_tx-Safe, IsOpen, tx_bits}
use c4l.Isr.Transmit.{kept, consume_tx_lem}
use c4l.Session.{Call, session}
use c4l.Session.Running.{
  Loaded, Moves, waiting, still-Moves, Loose, Running, Carries, Carries-refl, Carries-trans,
}
use c4l.Session.Turns.{Turn-Loose, Turn-Carries}
use c4l.Session.Order.{AllKeepRate, Running-Moves}
use c4l.Session.Between.{NotWrite, AllCalls, session-BetweenAt}
use c4l.Session.Within.{
  Gaps, mark_busy, wake_within, start_within, more_within, write_within, messages,
}

-- The calls of a gap write nothing, and set no bit rate of 0.
abbrev pub IsGap : List Call → Type 0
IsGap cs = AllKeepRate cs × AllCalls NotWrite cs

abbrev pub AreGaps : Gaps → Type 0
AreGaps g = IsGap g.after_produce × IsGap g.after_test × IsGap g.after_mark × IsGap g.at_end

abbrev pub AllGaps : List (Msg × Gaps) → Type 0
AllGaps [] = Unit {0}
AllGaps ((m, g) ∷ l) = AreGaps g × AllGaps l

-- A message that has been put into the queue: an idle queue may hold it.
produced-Loose :
    (m : Msg) (st : St)
    → contents tx_bits (stored st.dev.txq m) ≡ waiting st ++ m ∷ []
    → IsValid tx_bits (stored st.dev.txq m)
    → Running st
    → Loose false true (queued st m)
produced-Loose m st holds valid h = record {
  opened = record { rx_valid = h.opened.rx_valid; tx_valid = valid; baud_set = h.opened.baud_set };
  empty = λ is. absurd (cc);
  moves = λ is e. elim (h.moves refl e) [
    | inl p ↦ inl p
    | inr (x, rest, first, now, own) ↦
        still-Moves st (queued st m) x (rest ++ m ∷ []) refl refl
          (holds ∙ ap (λ (l : List Msg). l ++ m ∷ []) first) now own
  ];
  timer = h.timer;
}

produced-Carries :
    (m : Msg) (st : St)
    → contents tx_bits (stored st.dev.txq m) ≡ waiting st ++ m ∷ []
    → Carries (m ∷ []) st (queued st m)
produced-Carries m st holds = record {
  logs = [];
  sent = [];
  base_same = refl;
  asked = sym (append-nil _);
  loaded = tt;
  in_order = ap (map kept) (sym holds);
}

abbrev busy : St → St
busy st = record st { dev = record st.dev { txq = record st.dev.txq { idle = 0 } } }

-- A queue that is no longer marked as idle, and that nothing moves yet.
busy-Loose : (st : St) → Loose false true st → Loose true false (busy st)
busy-Loose st h = record {
  opened = record {
    rx_valid = h.opened.rx_valid;
    tx_valid = record {
      small = h.opened.tx_valid.small;
      mask_of = h.opened.tx_valid.mask_of;
      slots = h.opened.tx_valid.slots;
      produced_in = h.opened.tx_valid.produced_in;
      consumed_in = h.opened.tx_valid.consumed_in;
      fits = h.opened.tx_valid.fits;
    };
    baud_set = h.opened.baud_set;
  };
  empty = λ is ne. absurd (ne refl);
  moves = λ is. absurd (cc);
  timer = h.timer;
}

busy-Carries : (st : St) → Carries [] st (busy st)
busy-Carries st = record {
  logs = [];
  sent = [];
  base_same = refl;
  asked = sym (append-nil _);
  loaded = tt;
  in_order = ap (map kept) (append-nil (waiting st));
}

abbrev Starts : M (Unit {0}) → St → Type 0
Starts m st = (st' : St) × (m st ≡ some (tt, st')) × Running st' × Carries [] st st'

not_0 : (n : ℕ) → n ≢ 0 → (n == 0) ≡ false
not_0 n ne = ground arith

module _ (clock : List Access → ℕ × ℕ) where
  wake_within-Starts :
      (g : Gaps) → AreGaps g → (st : St) → Loose false true st → Starts (wake_within clock g) st
  unfolding wake_within
  wake_within-Starts g (gap1, (k2, n2), (k3, n3), gap4) st h =
      let (p1, st1, run1, h1, c1) = session-BetweenAt clock g.after_test k2 n2 false true st h in
      let (p3, st3, run3, h3, c3) =
        session-BetweenAt clock g.after_mark k3 n3 true false (busy st1) (busy-Loose st1 h1) in
      let (r, st4, run4, turn, valid, wq, rx, vars) = consume_tx_lem st3 h3.opened in
      let (stays, op) = Safe-end consume_tx-Safe h3.opened run4 in
      (
        st4,
        >>=-some (session clock g.after_test)
              (λ _.
                mark_busy >>= λ _. session clock g.after_mark >>= λ _. consume_tx >>= λ _. pure tt)
              {st = st} run1
            ∙ >>=-some (session clock g.after_mark) (λ _. consume_tx >>= λ _. pure tt)
                {st = busy st1} run3
            ∙ >>=-some consume_tx (λ _. pure tt) {st = st3} run4,
        Turn-Loose h3.empty h3.timer turn op,
        Carries-trans c1 (
            Carries-trans (busy-Carries st1)
              (Carries-trans c3 (Turn-Carries (ap (λ (v : Vars). v.base) vars) turn))),
      )

  start_within-Starts :
      (g : Gaps) → AreGaps g → (st : St) → Loose false true st → Starts (start_within clock g) st
  unfolding start_within
  start_within-Starts g gaps st h = elim (ℕ_discrete st.dev.txq.idle 0) [
    | yes e ↦ (
      st,
      rw e,
      record {
        opened = h.opened;
        empty = λ is ne. absurd (ne e);
        moves = λ is. h.moves refl;
        timer = h.timer;
      },
      Carries-refl st,
    )
    | no ne ↦
        let (st', run, r, c) = wake_within-Starts g gaps st h in
        (st', rw (not_0 st.dev.txq.idle ne) run, r, c)
  ]

  -- A write with such calls between its steps, and its result.
  abbrev WritesWithin : List (Msg × Gaps) → St → Type 0
  WritesWithin l st =
      (n : ℕ) × (st' : St) × (write_within clock l st ≡ some (n, st'))
      × Running st'
      × Carries (take n (messages l)) st st'
      × (n ≤ length (messages l))

  write_within-Running :
      (l : List (Msg × Gaps)) → AllGaps l → (st : St) → Running st → WritesWithin l st
  unfolding write_within more_within
  write_within-Running [] gaps st h = (0, st, refl, h, Carries-refl st, omega arith)
  write_within-Running ((m, g) ∷ l) (gaps, others) st h = elim (puts_one m st h.opened) [
    | inl (full, run) ↦ (
      0,
      st,
      >>=-some (produce_tx m) (more_within clock g (write_within clock l)) {st = st} run,
      h,
      Carries-refl st,
      omega arith,
    )
    | inr (free, run, holds, valid) ↦
        let ((k1, n1), gap2, gap3, (k4, n4)) = gaps in
        let (p1, st1, run1, h1, c1) =
          session-BetweenAt clock g.after_produce k1 n1 false true (queued st m)
            (produced-Loose m st holds valid h) in
        let (st2, run2, h2, c2) = start_within-Starts g gaps st1 h1 in
        let (p3, st3, run3, h3, c3) = session-BetweenAt clock g.at_end k4 n4 true true st2 h2 in
        let (n, st4, run4, h4, c4, most) = write_within-Running l others st3 h3 in
        (
          n + 1,
          st4,
          >>=-some (produce_tx m) (more_within clock g (write_within clock l)) {st = st} run
              ∙ >>=-some (session clock g.after_produce)
                  (λ _. start_within clock g >>= λ _.
                    session clock g.at_end >>= λ _. write_within clock l >>= λ w. pure (w + 1))
                  {st = queued st m} run1
              ∙ >>=-some (start_within clock g)
                  (λ _. session clock g.at_end >>= λ _. write_within clock l >>= λ w. pure (w + 1))
                  {st = st1} run2
              ∙ >>=-some (session clock g.at_end) (λ _. write_within clock l >>= λ w. pure (w + 1))
                  {st = st2} run3
              ∙ >>=-some (write_within clock l) (λ w. pure (w + 1)) {st = st3} run4,
          h4,
          subst (λ (k : List Msg). Carries k st st4) (sym (one_more n))
              (Carries-trans (produced-Carries m st holds)
                (Carries-trans c1 (Carries-trans c2 (Carries-trans c3 c4)))),
          omega (arith, most),
        )
  ]
    where
      one_more : (n : ℕ) → take (n + 1) (m ∷ messages l) ≡ m ∷ take n (messages l)
      one_more n = ap (λ (k : ℕ). take k (m ∷ messages l)) (suc_is n)
        where
          suc_is : (n : ℕ) → n + 1 ≡ suc n
          suc_is n = omega arith

-- While a running device writes messages, and after each step of the write makes any other calls that write nothing and set
-- no bit rate of 0, such as those of an interrupt or a timer, the transmissions requested are those of the messages `sent`,
-- one request for each, with its frame in the transmit buffer. What was waiting, and then the first `n` messages, which the
-- write accepted, is what was sent, and then what still waits, in this order, up to the delay and the clamped length. At the
-- end the queues are valid, and if messages wait, the driver waits for the interrupt of a transmission that it has requested
-- (`txinprogress` is 1), or the first message has no delay of its own any more, and the device's timer is armed: it has been started,
-- and has not expired since.
pub write_within_in_order :
    (clock : List Access → ℕ × ℕ) (l : List (Msg × Gaps)) (st : St)
    → Running st
    → AllGaps l
    → (n : ℕ) × (st' : St) × (write_within clock l st ≡ some (n, st'))
      × (n ≤ length (messages l))
      × ((logs : List (List Access)) × (sent : List Msg) × (requests st.vars.base st'.log
            ≡ requests st.vars.base st.log ++ logs)
          × Loaded st.vars.base logs sent
          × (map kept (waiting st ++ take n (messages l)) ≡ sent ++ map kept (waiting st')))
      × IsOpen st'
      × (waiting st' ≢ [] → Moves st')
write_within_in_order clock l st h gaps =
    let (n, st', run, h', c, most) = write_within-Running clock l gaps st h in
    (
      n,
      st',
      run,
      most,
      (c.logs, c.sent, c.asked, c.loaded, c.in_order),
      h'.opened,
      Running-Moves st' h',
    )

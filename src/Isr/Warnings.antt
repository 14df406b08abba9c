-- ===== src/Isr/Warnings.antt =====
-- The handler's answer to an error warning: the message for the user, and a transmit interrupt that the controller does not give.
use c4l.Common.{
  ℕ, ◌^◌, ◌<◌, ◌≡◌, ◌≢◌, ◌⊎◌, inl, inr, ◌∙◌, sym, subst, ap, arith, Option, some, [], ◌∷◌, ◌++◌,
  ◌==◌, if◌then◌else◌, add32, has, bit_or, Bool, true, false, Bool-cases,
}
use c4l.Message.{msg_busoff, msg_passive}
use c4l.Msgq.{MsgQ, qlen}
use c4l.Msgq.Valid.{contents}
use c4l.Machine.{St, M, pure, ◌>>=◌, >>=-some}
use c4l.Register
use c4l.Chip.{can_in}
use c4l.Chip.Quiet.{quiet}
use c4l.Chip.Requests.{Quiet, Quiet-end}
use c4l.Frame.{Msginf, errmsg}
use c4l.Isr.{rxproduce, warn_flags, fake_tx, undo_reset, on_warning, with_err}
use c4l.Isr.Calm.{calm, Calm}
use c4l.Isr.Errors.{Shows, Reports, Reports-err, after_read, read-IsOpen, Shows-Stays}
use c4l.Isr.Round.{undo_reset-Calm, fake_tx-Calm}
use c4l.Isr.Safe.{IsOpen, rx_bits, still-IsOpen}
use c4l.Session.Live.{undo_reset-Quiet}

-- The run of the handler's part, with the flag `e`, and of its last part for the interrupt sources.
abbrev Warned : ℕ → ℕ → Msginf → St → ℕ → Type 0
Warned s src inf st e =
    (src' : ℕ) × (st' : St) × (on_warning src inf st ≡ some ((src', with_err inf e), st'))
    × Reports (with_err inf e).flags (with_err inf e) st st'
    × ((s1 : St) × (s2 : St) × ((if e == 0 then fake_tx src else pure src) s1 ≡ some (src', s2))
        × Shows Register.canstat s s1
        × (s1.dev.txinprogress ≡ st.dev.txinprogress))

same_fst : {a b : ℕ} {s t : St} → ◌≡◌ {A = Option (ℕ × St)} (some (a, s)) (some (b, t)) → a ≡ b
same_fst e = cc

on_warning-Warned :
    (s src : ℕ) (inf : Msginf) (st : St)
    → IsOpen st
    → Shows Register.canstat s st
    → qlen st.dev.rxq < 2 ^ rx_bits
    → Warned s src inf st (warn_flags s)
unfolding on_warning can_in
on_warning-Warned s src inf st h shows room =
    let (u, st1, run1, stays1, rx1, tx1) = resets.at st h.baud_set in
    let op1 = still-IsOpen h stays1 rx1 tx1 in
    let st2 = after_read Register.canstat st1 in
    let (src', st3, run3, stays3, rx3, tx3) = (sources (warn_flags s)).at st2 op1.baud_set in
    let (st4, run4, (m, err, holds, tx4), stays4, ev) =
      Reports-err (with_err inf (warn_flags s)) st3
        (still-IsOpen (read-IsOpen Register.canstat op1) stays3 rx3 tx3)
        (subst (λ (q : MsgQ). qlen q < 2 ^ rx_bits) (sym (rx3 ∙ rx1)) room) in
    (
      src',
      st4,
      >>=-some (undo_reset _) (λ _. can_in Register.canstat >>= rest)
            {st = after_read Register.canmode st} run1
          ∙ ap (λ (v : ℕ). rest v st2) (Shows-Stays Register.canstat shows stays1 st1.log)
          ∙ >>=-some (if warn_flags s == 0 then fake_tx src else pure src) (report s) {st = st2}
              run3
          ∙ >>=-some (rxproduce (errmsg (with_err inf (warn_flags s))))
              (λ _. pure (src', with_err inf (warn_flags s))) {st = st3} run4,
      (
        m,
        err,
        holds ∙ ap (λ (q : MsgQ). contents rx_bits q ++ m ∷ []) (rx3 ∙ rx1),
        tx4 ∙ tx3 ∙ tx1,
      ),
      (
        st2,
        st3,
        run3,
        Shows-Stays Register.canstat shows stays1,
        (Quiet-end {st = st} quiet_resets run1).progress_same,
      ),
    )
  where
    report : ℕ → ℕ → M (ℕ × Msginf)
    report v src' = rxproduce (errmsg (with_err inf (warn_flags v))) >>= λ _.
        pure (src', with_err inf (warn_flags v))

    rest : ℕ → M (ℕ × Msginf)
    rest v = (if warn_flags v == 0 then fake_tx src else pure src) >>= report v

    resets : Calm (can_in Register.canmode >>= undo_reset)
    resets = search (calm, undo_reset-Calm)

    sources : (e : ℕ) → Calm (if e == 0 then fake_tx src else pure src)
    sources e = search (calm, fake_tx-Calm)

    quiet_resets : Quiet (can_in Register.canmode >>= undo_reset)
    quiet_resets = search (quiet, undo_reset-Quiet)

-- The flag, by the bits of the status.
flags_are :
    (s : ℕ)
    → ((has s Register.can_bus_status ≡ true) × (warn_flags s ≡ msg_busoff))
      ⊎ ((has s Register.can_bus_status ≡ false)
          × (has s Register.can_error_status ≡ true)
          × (warn_flags s ≡ msg_passive))
      ⊎ ((has s Register.can_bus_status ≡ false)
          × (has s Register.can_error_status ≡ false)
          × (warn_flags s ≡ 0))
unfolding warn_flags
flags_are s = elim (Bool-cases (has s Register.can_bus_status)) [
  | inl off ↦ inl (off, rw off)
  | inr on ↦ elim (Bool-cases (has s Register.can_error_status)) [
    | inl passive ↦ inr (inl (on, passive, rw (on, passive)))
    | inr active ↦ inr (inr (on, active, rw (on, active)))
  ]
]

-- The driver waits for the end of a transmission although the transmit buffer is free, and no interrupt tells of it.
abbrev IsStuck : ℕ → ℕ → St → Type 0
IsStuck s src st =
    (st.dev.txinprogress ≢ 0)
    × (has src Register.can_transmit_int ≡ false)
    × (has s Register.can_transmit_buffer_access ≡ true)

abbrev IsFine : ℕ → ℕ → St → Type 0
IsFine s src st =
    (st.dev.txinprogress ≡ 0)
    ⊎ (has src Register.can_transmit_int ≡ true)
    ⊎ (has s Register.can_transmit_buffer_access ≡ false)

-- What the handler makes of the sources `src` and the flags of `inf`, by the status `s`.
pub data Warns (s src : ℕ) (inf : Msginf) (st : St) : ℕ → ℕ → Type 0 where
  bus_off :
      has s Register.can_bus_status ≡ true → Warns s src inf st src (add32 inf.flags msg_busoff)
  passive :
      has s Register.can_bus_status ≡ false
      → has s Register.can_error_status ≡ true
      → Warns s src inf st src (add32 inf.flags msg_passive)
  stuck :
      has s Register.can_bus_status ≡ false
      → has s Register.can_error_status ≡ false
      → IsStuck s src st
      → Warns s src inf st (bit_or src Register.can_transmit_int) inf.flags
  active :
      has s Register.can_bus_status ≡ false
      → has s Register.can_error_status ≡ false
      → IsFine s src st
      → Warns s src inf st src inf.flags

fake_tx_lem :
    (s src src' : ℕ) (st st' : St)
    → Shows Register.canstat s st
    → fake_tx src st ≡ some (src', st')
    → (IsStuck s src st × (src' ≡ bit_or src Register.can_transmit_int))
      ⊎ (IsFine s src st × (src' ≡ src))
unfolding fake_tx can_in
fake_tx_lem s src src' st st' shows run = elim (Bool-cases (st.dev.txinprogress == 0)) [
  | inl none ↦ inr (inl (ground arith), same_fst (sym run ∙ without none))
  | inr some_sent ↦ elim (Bool-cases (has src Register.can_transmit_int)) [
    | inl told ↦ inr (inr (inl told), same_fst (sym run ∙ is_told some_sent told))
    | inr untold ↦ elim (Bool-cases (has s Register.can_transmit_buffer_access)) [
      | inl free ↦ inl (
        (ground arith, untold, free),
        same_fst (sym run ∙ looks some_sent untold ∙ ap (λ (b : Bool). looked b) free),
      )
      | inr full ↦ inr (
        inr (inr full),
        same_fst (sym run ∙ looks some_sent untold ∙ ap (λ (b : Bool). looked b) full),
      )
    ]
  ]
]
  where
    looked : Bool → Option (ℕ × St)
    looked b =
        some
          (if b then bit_or src Register.can_transmit_int else src, after_read Register.canstat st)

    without : (st.dev.txinprogress == 0) ≡ true → fake_tx src st ≡ some (src, st)
    without e = rw e

    is_told :
        (st.dev.txinprogress == 0) ≡ false
        → has src Register.can_transmit_int ≡ true
        → fake_tx src st ≡ some (src, st)
    is_told e f = rw (e, f)

    looks :
        (st.dev.txinprogress == 0) ≡ false
        → has src Register.can_transmit_int ≡ false
        → fake_tx src st ≡ looked (has s Register.can_transmit_buffer_access)
    looks e f =
        rw (e, f)
          (ap (λ (n : ℕ). looked (has n Register.can_transmit_buffer_access)) (shows st.log))

-- An open device with a free slot answers an error warning, with the status `s`, by an error message for the user, and
-- hands on the sources and the flags to the rest of the round. The flag of a bus-off controller is added, else that of an error-passive one,
-- else none. Just in this last case, if the driver waits for the end of a transmission that no interrupt tells of, although the transmit
-- buffer is free, the transmit interrupt is added to the sources.
pub on_warning_lem :
    (s src : ℕ) (inf : Msginf) (st : St)
    → IsOpen st
    → Shows Register.canstat s st
    → qlen st.dev.rxq < 2 ^ rx_bits
    → (src' : ℕ) × (flags : ℕ) × (st' : St) × Warns s src inf st src' flags
      × (on_warning src inf st ≡ some ((src', record inf { flags = flags }), st'))
      × Reports flags inf st st'
on_warning_lem s src inf st h shows room = elim (flags_are s) [
  | inl (off, e) ↦
      let (src', st', run, reports, (s1, s2, same, shows1, progress)) =
        subst (Warned s src inf st) e warned in
      flagged src' st' msg_busoff run reports (same_fst same) (bus_off off)
  | inr (inl (on, error, e)) ↦
      let (src', st', run, reports, (s1, s2, same, shows1, progress)) =
        subst (Warned s src inf st) e warned in
      flagged src' st' msg_passive run reports (same_fst same) (passive on error)
  | inr (inr (on, fine, e)) ↦
      let (src', st', run, reports, (s1, s2, faked, shows1, progress)) =
        subst (Warned s src inf st) e warned in
      elim (fake_tx_lem s src src' s1 s2 shows1 faked) [
        | inl ((waits, untold, free), is) ↦ (
          src',
          inf.flags,
          st',
          subst (λ (n : ℕ). Warns s src inf st n inf.flags) (sym is)
              (stuck on fine ((λ z. waits (progress ∙ z)), untold, free)),
          run,
          reports,
        )
        | inr (ok, is) ↦ (
          src',
          inf.flags,
          st',
          subst (λ (n : ℕ). Warns s src inf st n inf.flags) (sym is)
              (active on fine (still_fine s1 progress ok)),
          run,
          reports,
        )
      ]
]
  where
    warned : Warned s src inf st (warn_flags s)
    warned = on_warning-Warned s src inf st h shows room

    still_fine :
        (s1 : St) → s1.dev.txinprogress ≡ st.dev.txinprogress → IsFine s src s1 → IsFine s src st
    still_fine s1 progress (inl none) = inl (sym progress ∙ none)
    still_fine s1 progress (inr told) = inr told

    flagged :
        (src' : ℕ) (st' : St) (e : ℕ)
        → on_warning src inf st ≡ some ((src', record inf { flags = add32 inf.flags e }), st')
        → Reports (add32 inf.flags e) (record inf { flags = add32 inf.flags e }) st st'
        → src ≡ src'
        → Warns s src inf st src (add32 inf.flags e)
        → (src' : ℕ) × (flags : ℕ) × (st' : St) × Warns s src inf st src' flags
          × (on_warning src inf st ≡ some ((src', record inf { flags = flags }), st'))
          × Reports flags inf st st'
    flagged src' st' e run (m, err, holds, tx) is warns = (
      src',
      add32 inf.flags e,
      st',
      subst (λ (n : ℕ). Warns s src inf st n (add32 inf.flags e)) is warns,
      run,
      (
        m,
        record {
          flags_is = err.flags_is;
          id_is = err.id_is;
          length_is = err.length_is;
          sec_is = err.sec_is;
          usec_is = err.usec_is;
        },
        holds,
        tx,
      ),
    )

-- ===== src/Isr/Loop.antt =====
-- The loop of the interrupt handler ends.
use c4l.Common.{
  ℕ, zero, suc, ◌+◌, ◌≤◌, ◌<◌, ◌≡◌, ◌≢◌, refl, ◌∙◌, subst, arith, Option, some, List, ◌∷◌, u8,
  ==_refl, ◌==◌, if◌then◌else◌, false, Bool-cases, inl, inr,
}
use native.Mathlib.Decide.{dec_lt}
use c4l.Machine.{Access, input, St, M, pure, ◌>>=◌, >>=-some}
use c4l.Register
use c4l.Chip.{can_in}
use c4l.Isr.{isr_round, isr_loop, can_interrupt}
use c4l.Isr.Calm.{only_log, Stays, Stays-trans}
use c4l.Chip.Reads.{reads, reads-input}
use c4l.Isr.Safe.{IsOpen}
use c4l.Isr.Round.{isr_round-Safe}

-- The port of the interrupt register.
abbrev pub irq_port : St → ℕ
irq_port st = st.vars.base + Register.canirq

-- The controller tells of no interrupt any more once its interrupt register has been read `k` times.
abbrev pub Settles : ℕ → St → Type 0
Settles k st = (log : List Access) → k ≤ reads (irq_port st) log → u8 (st.env log (irq_port st)) ≡ 0

-- The handler ends, with its answer 1.
abbrev pub Ends : M (Option ℕ) → St → Type 0
Ends m st = (st' : St) × (m st ≡ some (some 1, st')) × Stays st st' × IsOpen st'

abbrev after_read : St → St
after_read st = record st { log = input (irq_port st) (u8 (st.env st.log (irq_port st))) ∷ st.log }

reads-after_read :
    (st : St) → reads (irq_port st) (after_read st).log ≡ suc (reads (irq_port st) st.log)
unfolding reads
reads-after_read st = rw ==_refl

Settles-Stays : {k : ℕ} {st st' : St} → Settles k st → Stays st st' → Settles k st'
Settles-Stays {k} {st} {st'} h s log enough =
    rw (s.env_same, s.base_same)
      (h log (subst (λ (b : ℕ). k ≤ reads (b + Register.canirq) log) s.base_same enough))

Ends-later :
    (m n : M (Option ℕ)) {st st' : St} → Stays st st' → n st ≡ m st' → Ends m st' → Ends n st
Ends-later m n s e (st2, run, s2, open2) = (st2, e ∙ run, Stays-trans s s2, open2)

nonzero : (n : ℕ) → (n == 0) ≡ false → n ≢ 0
nonzero n h = ground arith

module _ (clock : List Access → ℕ × ℕ) (k : ℕ) where
  -- Enough rounds are left for a loop that starts after an answer other than 0.
  abbrev Enough : ℕ → St → Type 0
  Enough fuel st = (reads (irq_port st) st.log ≤ k) × (k < reads (irq_port st) st.log + fuel)

  abbrev again : ℕ → ℕ → M (Option ℕ)
  again fuel next = if next == 0 then pure (some 1) else isr_loop clock fuel next

  -- A read of the interrupt register, and then the end or the loop.
  read_again :
      (fuel : ℕ)
      → ((next : ℕ) (st : St)
          → IsOpen st
          → Settles k st
          → Enough fuel st
          → Ends (isr_loop clock fuel next) st)
      → (st : St) → IsOpen st
      → Settles k st
      → k ≤ reads (irq_port st) st.log + fuel
      → Ends (can_in Register.canirq >>= again fuel) st
  unfolding can_in
  read_again fuel loop st op settles enough = elim (Bool-cases (next == 0)) [
    | inl done ↦ (after_read st, run ∙ rw done, read_stays, read-IsOpen)
    | inr more ↦
        Ends-later (isr_loop clock fuel next) (can_in Register.canirq >>= again fuel) read_stays
          (run ∙ rw more)
          (loop next (after_read st) read-IsOpen (Settles-Stays settles read_stays)
            (early more, omega (arith, count)))
  ]
    where
      next : ℕ
      next = u8 (st.env st.log (irq_port st))

      count : reads (irq_port st) (after_read st).log ≡ suc (reads (irq_port st) st.log)
      count = reads-after_read st

      run : (can_in Register.canirq >>= again fuel) st ≡ again fuel next (after_read st)
      run = refl

      read_stays : Stays st (after_read st)
      read_stays = only_log (λ port. reads-input port _ _ _)

      read-IsOpen : IsOpen (after_read st)
      read-IsOpen = record {
        rx_valid = op.rx_valid;
        tx_valid = op.tx_valid;
        baud_set = op.baud_set;
      }

      early : (next == 0) ≡ false → reads (irq_port st) (after_read st).log ≤ k
      early more = elim (dec_lt (reads (irq_port st) st.log) k) [
        | yes before ↦ omega (arith, count)
        | no after ↦ absurd (nonzero next more (settles st.log (omega arith)))
      ]

  loop-Ends :
      (fuel next : ℕ) (st : St)
      → IsOpen st
      → Settles k st
      → Enough fuel st
      → Ends (isr_loop clock fuel next) st
  unfolding isr_loop
  loop-Ends zero next st op settles (few, more) = absurd (omega arith)
  loop-Ends (suc fuel) next st op settles (few, more) =
      let (_, st1, run, s, op1) = (isr_round-Safe clock next).at st op in
      Ends-later (can_in Register.canirq >>= again fuel) (isr_loop clock (suc fuel) next) s
        (>>=-some (isr_round clock next) _ run)
        (read_again fuel (loop-Ends fuel) st1 op1 (Settles-Stays settles s) (counted st1 s))
    where
      counted : (st1 : St) → Stays st st1 → k ≤ reads (irq_port st1) st1.log + fuel
      counted st1 s = rw s.base_same (omega (arith, s.reads_more (irq_port st)))

-- On an open device, and with a controller that tells of no interrupt after `n` more reads of its interrupt register,
-- the handler ends within `n` rounds, with the answer 1, in a state of an open device.
pub can_interrupt-Ends :
    (clock : List Access → ℕ × ℕ) (n : ℕ) (st : St)
    → IsOpen st
    → Settles (reads (irq_port st) st.log + n) st
    → Ends (can_interrupt clock n) st
unfolding can_interrupt
can_interrupt-Ends clock n st op settles =
    read_again clock _ n (loop-Ends clock _ n) st op settles (omega arith)

-- ===== src/Session/Within/Alone.antt =====
-- A write without calls between its steps is the loop of File.
use c4l.Common.{
  ℕ, zero, suc, ◌+◌, ◌≡◌, inl, inr, refl, ◌∙◌, ap, Bool-cases, ◌==◌, List, [], ◌∷◌, map, Option,
  none, some,
}
use c4l.Message.{Msg}
use c4l.Machine.{Access, St, M, pure, ◌>>=◌}
use c4l.File.{produce_tx, start_if_idle, write_more, write_loop}
use c4l.Session.{session}
use c4l.Session.Within.{Gaps, wake_within, start_within, more_within, write_within}

abbrev no_gaps : Gaps
no_gaps = record { after_produce = []; after_test = []; after_mark = []; at_end = [] }

abbrev alone : List Msg → List (Msg × Gaps)
alone ms = map (λ m. (m, no_gaps)) ms

-- Parts that go on alike.
same_rest :
    {A B : Type 0} (m : M A) (f g : A → M B) (st : St)
    → ((a : A) (s : St) → f a s ≡ g a s)
    → (m >>= f) st ≡ (m >>= g) st
same_rest {A} {B} m f g st same = from (m st)
  where
    from :
        (o : Option (A × St))
        → ◌≡◌ {A = Option (B × St)}
            (elim o [ none ↦ none | some (a, s) ↦ f a s ])
            (elim o [ none ↦ none | some (a, s) ↦ g a s ])
    from none = refl
    from (some (a, s)) = same a s

module _ (clock : List Access → ℕ × ℕ) where
  start_within-alone : (st : St) → start_within clock no_gaps st ≡ start_if_idle st
  unfolding start_within start_if_idle wake_within session
  start_within-alone st = elim (Bool-cases (st.dev.txq.idle == 0)) [
    | inl e ↦ rw e refl
    | inr e ↦ rw e refl
  ]

  more_within-alone :
      (rest rest' : M ℕ)
      → ((s : St) → rest s ≡ rest' s)
      → (r : ℕ) (st : St) → more_within clock no_gaps rest r st ≡ write_more rest' r st
  unfolding more_within write_more session
  more_within-alone rest rest' same zero st = refl
  more_within-alone rest rest' same (suc r) st =
      ap
        (λ (o : Option (Unit {0} × St)). elim o as (λ o. Option (ℕ × St)) [
          | none ↦ none
          | some (a, s) ↦ (rest >>= λ w. pure (w + 1)) s
        ])
        (start_within-alone st)
      ∙ same_rest start_if_idle (λ _. rest >>= λ w. pure (w + 1)) (λ _. rest' >>= λ w. pure (w + 1))
          st
          (λ u s.
            ap
              (λ (o : Option (ℕ × St)). elim o as (λ o. Option (ℕ × St)) [
                | none ↦ none
                | some (a, s) ↦ some (a + 1, s)
              ])
              (same s))

  -- If no call comes between the steps, the loop is that of the model of can_write.
  write_within-alone :
      (ms : List Msg) (st : St) → write_within clock (alone ms) st ≡ write_loop ms st
  unfolding write_within write_loop
  write_within-alone [] st = refl
  write_within-alone (m ∷ ms) st =
      same_rest (produce_tx m) (more_within clock no_gaps (write_within clock (alone ms)))
        (write_more (write_loop ms)) st
        (λ r s.
          more_within-alone (write_within clock (alone ms)) (write_loop ms) (write_within-alone ms)
            r s)

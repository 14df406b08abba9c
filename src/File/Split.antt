-- ===== src/File/Split.antt =====
-- A write of one long buffer does what two writes of its parts do.
use c4l.Common.{
  ℕ, zero, suc, ◌+◌, ◌≡◌, ◌⊎◌, inl, inr, ◌∙◌, sym, ap, arith, none, some, List, [], ◌∷◌, ◌++◌, true,
  false, ◌==◌, if◌then◌else◌, length, Option-cases, Bool-cases,
}
use c4l.Message.{Msg}
use c4l.Machine.{St, M, pure, ◌>>=◌, >>=-some, Result, ok, err}
use c4l.File.{produce_tx, start_if_idle, write_more, write_loop, can_write}

-- The second write is made if the first took its whole buffer.
abbrev and_then : ℕ → M ℕ → ℕ → M ℕ
and_then size rest n = if n == size then (rest >>= λ k. pure (n + k)) else pure n

>>=-none : {A B : Type 0} (m : M A) (f : A → M B) {st : St} → m st ≡ none → (m >>= f) st ≡ none
>>=-none m f e = rw (e, ◌>>=◌)

-- Two runs are the same if their first parts are, and what follows is from each end of it.
>>=-cong :
    {A B : Type 0} (m : M A) (f g : A → M B) (st : St)
    → ((a : A) (st' : St) → f a st' ≡ g a st')
    → (m >>= f) st ≡ (m >>= g) st
>>=-cong m f g st same = elim (Option-cases (m st)) [
  | inl fault ↦ >>=-none m f fault ∙ sym (>>=-none m g fault)
  | inr ((a, st'), run) ↦ >>=-some m f run ∙ same a st' ∙ sym (>>=-some m g run)
]

>>=-assoc :
    {A B C : Type 0} (m : M A) (f : A → M B) (g : B → M C) (st : St)
    → ((m >>= f) >>= g) st ≡ (m >>= λ a. f a >>= g) st
>>=-assoc m f g st = elim (Option-cases (m st)) [
  | inl fault ↦ >>=-none (m >>= f) g (>>=-none m f fault) ∙ sym (>>=-none m (λ a. f a >>= g) fault)
  | inr ((a, st'), run) ↦
      ap (λ o. elim o [ none ↦ none | some (b, s) ↦ g b s ]) (>>=-some m f run)
      ∙ sym (>>=-some m (λ a. f a >>= g) run)
]

counted : (n w : ℕ) → ((w + 1) == suc n) ≡ (w == n)
counted n w = ground arith

none_taken : (n : ℕ) → (0 == suc n) ≡ false
none_taken n = ground arith

one_more :
    (size : ℕ) (rest : M ℕ) (w : ℕ) (st : St)
    → (and_then size rest w >>= λ n. pure (n + 1)) st ≡ and_then (suc size) rest (w + 1) st
one_more size rest w st = elim (Bool-cases (w == size)) [
  | inl all ↦
      rw (counted size w, all)
        (>>=-assoc rest (λ k. pure (w + k)) (λ n. pure (n + 1)) st
          ∙ >>=-cong rest (λ k. pure (w + k + 1)) (λ k. pure (w + 1 + k)) st
              (λ k s. ap (λ (n : ℕ). some (n, s)) (swap w k)))
  | inr part ↦ rw (counted size w, part)
]
  where
    swap : (w k : ℕ) → w + k + 1 ≡ w + 1 + k
    swap w k = omega arith

write_loop-append :
    (ms ns : List Msg) (st : St)
    → write_loop (ms ++ ns) st ≡ (write_loop ms >>= and_then (length ms) (write_loop ns)) st
unfolding write_loop
write_loop-append [] ns st = whole (Option-cases (write_loop ns st))
  where
    whole :
        (write_loop ns st ≡ none) ⊎ ((p : ℕ × St) × (write_loop ns st ≡ some p))
        → write_loop ns st ≡ (write_loop ns >>= λ k. pure (0 + k)) st
    whole (inl fault) = fault ∙ sym (>>=-none (write_loop ns) (λ k. pure (0 + k)) fault)
    whole (inr ((k, s), run)) =
        run
        ∙ ap (λ (n : ℕ). some (n, s)) (omega arith)
        ∙ sym (>>=-some (write_loop ns) (λ k. pure (0 + k)) run)
write_loop-append (m ∷ ms) ns st =
    >>=-cong (produce_tx m) (write_more (write_loop (ms ++ ns)))
      (λ r. write_more (write_loop ms) r >>= and_then (suc (length ms)) (write_loop ns)) st
      (after (write_loop-append ms ns))
    ∙ sym (
        >>=-assoc (produce_tx m) (write_more (write_loop ms))
          (and_then (suc (length ms)) (write_loop ns)) st)
  where
    ending : ℕ → M ℕ
    ending n = pure (n + 1)

    both : M ℕ
    both = write_loop ms >>= and_then (length ms) (write_loop ns)

    started :
        ((s : St) → write_loop (ms ++ ns) s ≡ both s)
        → (s : St)
        → (write_loop (ms ++ ns) >>= ending) s
          ≡ ((write_loop ms >>= ending) >>= and_then (suc (length ms)) (write_loop ns)) s
    started ih s =
        ap (λ o. elim o [ none ↦ none | some (b, s') ↦ ending b s' ]) (ih s)
        ∙ >>=-assoc (write_loop ms) (and_then (length ms) (write_loop ns)) ending s
        ∙ >>=-cong (write_loop ms) (λ w. and_then (length ms) (write_loop ns) w >>= ending)
            (λ w. ending w >>= and_then (suc (length ms)) (write_loop ns)) s
            (one_more (length ms) (write_loop ns))
        ∙ sym (>>=-assoc (write_loop ms) ending (and_then (suc (length ms)) (write_loop ns)) s)

    after :
        ((s : St) → write_loop (ms ++ ns) s ≡ both s)
        → (r : ℕ) (s : St)
        → write_more (write_loop (ms ++ ns)) r s
          ≡ (write_more (write_loop ms) r >>= and_then (suc (length ms)) (write_loop ns)) s
    after ih zero s = rw (none_taken (length ms))
    after ih (suc r) s =
        >>=-cong start_if_idle (λ _. write_loop (ms ++ ns) >>= ending)
          (λ _. (write_loop ms >>= ending) >>= and_then (suc (length ms)) (write_loop ns)) s
          (λ _ s'. started ih s')
        ∙ sym (
            >>=-assoc start_if_idle (λ _. write_loop ms >>= ending)
              (and_then (suc (length ms)) (write_loop ns)) s)

-- What a write does after one of `size` messages with the result `r`.
abbrev pub then_write : ℕ → List Msg → Result → M Result
then_write size ns (err e) = pure (err e)
then_write size ns (ok n) =
    if n == size
    then (can_write true ns >>= λ r. elim r [ ok k ↦ pure (ok (n + k)) | err e ↦ pure (err e) ])
    else pure (ok n)

-- In any state, and with a fault too, a write of the messages `ms ++ ns` has the result and the effect of a write of `ms` and,
-- if that took them all, a write of `ns`, whose result is added.
pub can_write-append :
    (ms ns : List Msg) (st : St)
    → can_write true (ms ++ ns) st ≡ (can_write true ms >>= then_write (length ms) ns) st
unfolding can_write
can_write-append ms ns st =
    ap (λ o. elim o [ none ↦ none | some (b, s) ↦ pure (ok b) s ]) (write_loop-append ms ns st)
    ∙ >>=-assoc (write_loop ms) (and_then (length ms) (write_loop ns)) (λ w. pure (ok w)) st
    ∙ >>=-cong (write_loop ms) (λ w. and_then (length ms) (write_loop ns) w >>= λ n. pure (ok n))
        (λ w. pure (ok w) >>= then_write (length ms) ns) st ended
    ∙ sym (>>=-assoc (write_loop ms) (λ w. pure (ok w)) (then_write (length ms) ns) st)
  where
    ended :
        (w : ℕ) (s : St)
        → (and_then (length ms) (write_loop ns) w >>= λ n. pure (ok n)) s
          ≡ (pure (ok w) >>= then_write (length ms) ns) s
    ended w s = elim (Bool-cases (w == length ms)) [
      | inl all ↦ rw all (
          >>=-assoc (write_loop ns) (λ k. pure (w + k)) (λ n. pure (ok n)) s
          ∙ sym (
              >>=-assoc (write_loop ns) (λ k. pure (ok k))
                (λ r. elim r [ ok k ↦ pure (ok (w + k)) | err e ↦ pure (err e) ]) s))
      | inr part ↦ rw part
    ]

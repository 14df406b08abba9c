-- ===== src/Tools/Single/Counts.antt =====
-- test12 of can_send.c sends one message for each number, in order.
use c4l.Common.{
  ℕ, zero, suc, ◌+◌, ◌^◌, ◌<◌, ◌≤◌, ◌≡◌, inl, inr, refl, ◌∙◌, sym, ap, subst, arith, some, List, [],
  ◌++◌, length, take, Bool-cases, ◌==◌, add32,
}
use c4l.Message.{Msg}
use c4l.Machine.{Access, St, ok}
use c4l.Session.{Call}
use c4l.Session.Running.{Running}
use c4l.Tools.Drive.{Next, goes_on, ends, Runs, stays, last, round, drive, drive_runs, ArePauses}
use c4l.Tools.Single.{with_counter, after_counter}

-- The messages with the `len` numbers from `n` on.
abbrev pub counters : Msg → ℕ → ℕ → List Msg
counters m n zero = []
counters m n (suc len) = with_counter m n ++ counters m (suc n) len

-- All are accepted at the end, and fewer before.
abbrev pub Counted : ℕ → ℕ → Next ℕ → Type 0
Counted soll total (ends n) = total ≡ soll
Counted soll total (goes_on n) = total < soll

-- The number that comes next.
abbrev Goes : ℕ → ℕ → Next ℕ → Type 0
Goes soll next (ends n) = next ≡ soll
Goes soll next (goes_on n) = (n ≡ next) × (next < soll)

abbrev CountedFrom : Msg → ℕ → ℕ → List Msg → Next ℕ → Type 0
CountedFrom m soll n ms q = (ms ≡ counters m n (length ms)) × Counted soll (n + length ms) q

module _ (m : Msg) (soll : ℕ) (fits : soll < 2 ^ 32) where
  goes : (n k : ℕ) → n < soll → k ≤ 1 → Goes soll (n + k) (after_counter soll n (ok k))
  goes n k more most = elim (Bool-cases (k == 1)) [
    | inr nothing ↦ rw nothing (ground (arith, most), ground (arith, most))
    | inl taken ↦ elim (Bool-cases (add32 n 1 == soll)) [
      | inl enough ↦ rw (taken, enough) (ground (arith, fits))
      | inr others ↦ rw (taken, others) (ground (arith, fits), ground (arith, fits))
    ]
  ]

  runs_counters :
      (n : ℕ) (ms : List Msg) (q : Next ℕ)
      → n < soll
      → Runs (with_counter m) (after_counter soll) n ms q
      → CountedFrom m soll n ms q
  runs_counters n ms q more (stays _) = (refl, omega (arith, more))
  runs_counters n ms q more (last _ n' k most is) =
      ends_with k most (subst (Goes soll (n + k)) is (goes n k more most))
    where
      ends_with :
          (k : ℕ)
          → k ≤ 1
          → n + k ≡ soll
          → CountedFrom m soll n (take k (with_counter m n)) (ends n')
      ends_with zero most e = absurd (omega (arith, e, more))
      ends_with (suc zero) most e = (refl, e)
      ends_with (suc (suc k)) most e = absurd (omega (arith, most))
  runs_counters n ms q more (round _ n' k ms' _ most is rest) =
      let (same, more') = subst (Goes soll (n + k)) is (goes n k more most) in
      goes_with k n' most same
        (runs_counters n' ms' q (subst (λ (i : ℕ). i < soll) (sym same) more') rest)
    where
      goes_with :
          (k n' : ℕ)
          → k ≤ 1
          → n' ≡ n + k
          → CountedFrom m soll n' ms' q
          → CountedFrom m soll n (take k (with_counter m n) ++ ms') q
      goes_with zero n' most same (all, total) =
          let back : n' ≡ n = omega (arith, same) in
          (
            all ∙ ap (λ (i : ℕ). counters m i (length ms')) back,
            subst (λ (i : ℕ). Counted soll (i + length ms') q) back total,
          )
      goes_with (suc zero) n' most same (all, total) =
          let next : n' ≡ suc n = omega (arith, same) in
          let size : suc n + length ms' ≡ n + suc (length ms') = omega arith in
          (
            ap (λ (l : List Msg). with_counter m n ++ l)
                (all ∙ ap (λ (i : ℕ). counters m i (length ms')) next),
            subst (λ (i : ℕ). Counted soll i q) (ap (λ (i : ℕ). i + length ms') next ∙ size) total,
          )
      goes_with (suc (suc k)) n' most same h = absurd (omega (arith, most))

-- On a running device, with any calls of the driver between the writes that write nothing and set no bit rate of 0, what the
-- driver accepts of test 12 is one message for each number from 0 on, in order and with the four bytes of the number as
-- its data: all `soll` of them if the test has come to its end, and fewer if not. A message that is not taken is written again.
pub drive_test12 :
    (m : Msg) (clock : List Access → ℕ × ℕ) (soll : ℕ) (pauses : List (List Call)) (st : St)
    → 0 < soll
    → soll < 2 ^ 32
    → ArePauses pauses
    → Running st
    → (ms : List Msg) × (q : Next ℕ) × (st' : St) × (drive
          (with_counter m)
          (after_counter soll)
          clock
          pauses
          0
          st
        ≡ some ((ms, q), st'))
      × Running st'
      × (ms ≡ counters m 0 (length ms))
      × Counted soll (length ms) q
drive_test12 m clock soll pauses st some_soll fits paused h =
    let (ms, q, st', run, h', c, runs, left) =
      drive_runs (with_counter m) (after_counter soll) clock pauses 0 st paused h in
    let (all, total) = runs_counters m soll fits 0 ms q some_soll runs in
    let size : 0 + length ms ≡ length ms = omega arith in
    (ms, q, st', run, h', all, subst (λ (i : ℕ). Counted soll i q) size total)

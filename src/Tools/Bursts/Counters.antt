-- ===== src/Tools/Bursts/Counters.antt =====
-- What loops that write bursts have written.
use native.Mathlib.Decide.{dec_lt}
use c4l.Common.{
  Bool, ap₂, ==_iff, ◌⊎◌, ℕ, zero, suc, ◌+◌, ◌^◌, ◌%◌, ◌<◌, ◌≤◌, ◌≡◌, inl, inr, refl, ◌∙◌, sym, ap,
  subst, arith, List, [], ◌∷◌, ◌++◌, length, take, true, false, Bool-cases, ◌==◌, if◌then◌else◌,
  slt32, add32,
}
use mathlib.Core.List.{append-nil}
use c4l.Message.{Msg}
use c4l.Machine.{Result, ok}
use c4l.Tools.Drive.{Next, goes_on, ends, Runs, stays, last, round}
use c4l.Tools.Bursts.{Burst, while_sleeping, count_burst}

-- The starts of the bursts `k`, `k + 1` and so on, of the given lengths.
abbrev pub bursts : (ℕ → List Msg) → ℕ → List ℕ → List Msg
bursts burst k [] = []
bursts burst k (n ∷ sizes) = take n (burst (k % 2 ^ 32)) ++ bursts burst (suc k) sizes

-- Each of the bursts has at least one message.
abbrev pub NotEmpty : List ℕ → Type 0
NotEmpty [] = Unit {0}
NotEmpty (n ∷ sizes) = (0 < n) × NotEmpty sizes

-- The variables before burst `k`.
pub record IsBefore (k : ℕ) (s : Burst) : Type 0 where
  pub shown_is : s.shown ≡ k % 2 ^ 32
  pub cnt_is : s.cnt ≡ suc k % 2 ^ 32
  pub count_is : s.test_count ≡ k % 2 ^ 32

-- How many bursts a write of `n` messages counts for.
abbrev pub burst_of : ℕ → ℕ
burst_of zero = 0
burst_of (suc n) = 1

-- The same for test1, which has no counter.
abbrev pub Counts : ℕ → Burst → Type 0
Counts k s = s.test_count ≡ k % 2 ^ 32

contradicts : {b : Bool} → b ≡ true → b ≡ false → ⊥
contradicts p q = absurd (cc)

==_of : {m n : ℕ} → m ≡ n → (m == n) ≡ true
==_of {m} {n} e = (==_iff m n).1 e

-- A loop that ends after `limit` bursts.
module _ (limit sleeptime : ℕ) (Before : ℕ → Burst → Type 0) where
  -- The loop goes on with a sleep time, and ends without one, or after enough bursts.
  abbrev pub IsAfter : ℕ → Next Burst → Type 0
  IsAfter k (goes_on s) = (slt32 0 sleeptime ≡ true) × Before k s × (k < limit)
  IsAfter k (ends s) =
      (s.test_count ≡ k % 2 ^ 32)
      × ((s.test_count ≡ limit % 2 ^ 32) ⊎ (slt32 0 sleeptime ≡ false))
      × (k ≤ limit)

  while_sleeping-IsAfter :
      (k : ℕ) (s : Burst)
      → Before k s
      → Counts k s
      → k < limit
      → IsAfter k (while_sleeping sleeptime s)
  while_sleeping-IsAfter k s b c lt = elim (Bool-cases (slt32 0 sleeptime)) [
    | inl sleeps ↦ rw sleeps (sleeps, b, lt)
    | inr awake ↦ rw awake (c, inr awake, omega (arith, lt))
  ]

  pub no_burst-IsAfter :
      (k : ℕ) (s : Burst)
      → Before k s
      → Counts k s
      → k < limit
      → IsAfter (k + burst_of 0) (while_sleeping sleeptime s)
  no_burst-IsAfter k s b c lt =
      subst (λ (i : ℕ). IsAfter i (while_sleeping sleeptime s)) (omega arith)
        (while_sleeping-IsAfter k s b c lt)

  pub count_burst-IsAfter :
      (k : ℕ) (s : Burst)
      → Counts k s
      → k < limit
      → limit ≤ 2 ^ 32
      → Before (k + 1) (record s { test_count = add32 s.test_count 1 })
      → IsAfter (k + 1) (count_burst (limit % 2 ^ 32) sleeptime s)
  count_burst-IsAfter k s c lt small b =
      elim (Bool-cases (add32 s.test_count 1 == limit % 2 ^ 32)) [
        | inl enough ↦ rw enough (counted, inl ((==_iff _ _).0 enough), omega (arith, lt))
        | inr more ↦ rw more (while_sleeping-IsAfter (k + 1) _ b counted (not_yet more))
      ]
    where
      counted : add32 s.test_count 1 ≡ (k + 1) % 2 ^ 32
      counted = omega (arith, c)

      last_one : k + 1 ≡ limit → add32 s.test_count 1 ≡ limit % 2 ^ 32
      last_one e = counted ∙ ap (λ (n : ℕ). n % 2 ^ 32) e

      not_yet : (add32 s.test_count 1 == limit % 2 ^ 32) ≡ false → k + 1 < limit
      not_yet more = elim (dec_lt (k + 1) limit) [
        | yes less ↦ less
        | no enough ↦ absurd (contradicts (==_of (last_one (omega arith))) more)
      ]

  -- At the end of a run.
  abbrev pub IsAt : ℕ → Next Burst → Type 0
  IsAt k (goes_on s) = Before k s × (k < limit)
  IsAt k (ends s) =
      (s.test_count ≡ k % 2 ^ 32)
      × ((s.test_count ≡ limit % 2 ^ 32) ⊎ (slt32 0 sleeptime ≡ false))
      × (k ≤ limit)

  -- What the driver has accepted of the bursts from number `k` on: without a sleep time, of one burst at most.
  abbrev pub BurstsFrom : (ℕ → List Msg) → ℕ → List Msg → Next Burst → Type 0
  BurstsFrom burst k ms q =
      (sizes : List ℕ) × NotEmpty sizes
      × (ms ≡ bursts burst k sizes)
      × (slt32 0 sleeptime ≡ false → length sizes ≤ 1)
      × IsAt (k + length sizes) q

  -- A loop that writes burst `k` before which `Before k` holds.
  module _ (burst : ℕ → List Msg) (to_send : Burst → List Msg) (after : Burst → Result → Next Burst)
      (sends : (k : ℕ) (s : Burst) → Before k s → to_send s ≡ burst (k % 2 ^ 32))
      (steps : (k n : ℕ) (s : Burst)
        → Before k s
        → k < limit
        → IsAfter (k + burst_of n) (after s (ok n))) where
    one_burst :
        (k n : ℕ) (s : Burst) → Before k s → take n (to_send s) ≡ take n (burst (k % 2 ^ 32))
    one_burst k n s b = ap (take n) (sends k s b)

    one_size :
        (k n : ℕ) (s s' : Burst)
        → Before k s
        → IsAfter (k + burst_of n) (ends s')
        → BurstsFrom burst k (take n (to_send s)) (ends s')
    one_size k zero s s' b a = ([], tt, refl, (λ e. omega arith), a)
    one_size k (suc n) s s' b a = (
      suc n ∷ [],
      (omega arith, tt),
      one_burst k (suc n) s b ∙ sym (append-nil _),
      (λ e. omega arith),
      a,
    )

    more_sizes :
        (k n : ℕ) (s : Burst) (ms : List Msg) (q : Next Burst)
        → slt32 0 sleeptime ≡ true
        → Before k s
        → BurstsFrom burst (k + burst_of n) ms q
        → BurstsFrom burst k (take n (to_send s) ++ ms) q
    more_sizes k zero s ms q sleeps b (sizes, some_each, all, few, at) =
        let same : k + 0 ≡ k = omega arith in
        (
          sizes,
          some_each,
          all ∙ ap (λ (i : ℕ). bursts burst i sizes) same,
          (λ e. cc),
          subst (λ (i : ℕ). IsAt (i + length sizes) q) same at,
        )
    more_sizes k (suc n) s ms q sleeps b (sizes, some_each, all, few, at) =
        let next : k + 1 ≡ suc k = omega arith in
        let size : k + 1 + length sizes ≡ k + suc (length sizes) = omega arith in
        (
          suc n ∷ sizes,
          (omega arith, some_each),
          ap₂ (λ (a b : List Msg). a ++ b) (one_burst k (suc n) s b)
              (all ∙ ap (λ (i : ℕ). bursts burst i sizes) next),
          (λ e. cc),
          subst (λ (i : ℕ). IsAt i q) size at,
        )

    pub runs_bursts :
        (k : ℕ) (s : Burst) (ms : List Msg) (q : Next Burst)
        → Before k s
        → k < limit
        → Runs to_send after s ms q
        → BurstsFrom burst k ms q
    runs_bursts k s ms q b lt (stays _) =
        let same : k ≡ k + 0 = omega arith in
        (
          [],
          tt,
          refl,
          (λ e. omega arith),
          (subst (λ (i : ℕ). Before i s) same b, omega (arith, lt)),
        )
    runs_bursts k s ms q b lt (last _ s' n most is) =
        one_size k n s s' b (subst (IsAfter (k + burst_of n)) is (steps k n s b lt))
    runs_bursts k s ms q b lt (round _ s' n ms' _ most is rest) =
        let (sleeps, b', lt') = subst (IsAfter (k + burst_of n)) is (steps k n s b lt) in
        more_sizes k n s ms' q sleeps b (runs_bursts (k + burst_of n) s' ms' q b' lt' rest)

sleeps_if :
    {A : Type 0} (b : Bool) (s s' : A) → (if b then goes_on s else ends s) ≡ goes_on s' → b ≡ true
sleeps_if true s s' e = refl
sleeps_if false s s' e = absurd (cc)

counts_if :
    {A : Type 0} (c b : Bool) (s0 s s' : A)
    → (if c then ends s0 else (if b then goes_on s else ends s)) ≡ goes_on s'
    → b ≡ true
counts_if true b s0 s s' e = absurd (cc)
counts_if false b s0 s s' e = sleeps_if b s s' e

-- The loops go on just with a sleep time.
pub while_sleeping-sleeps :
    (sleeptime : ℕ) (s s' : Burst)
    → while_sleeping sleeptime s ≡ goes_on s'
    → slt32 0 sleeptime ≡ true
while_sleeping-sleeps sleeptime s s' e = sleeps_if (slt32 0 sleeptime) s s' e

pub count_burst-sleeps :
    (soll sleeptime : ℕ) (s s' : Burst)
    → count_burst soll sleeptime s ≡ goes_on s'
    → slt32 0 sleeptime ≡ true
count_burst-sleeps soll sleeptime s s' e =
    counts_if (add32 s.test_count 1 == soll) (slt32 0 sleeptime) _ _ s' e

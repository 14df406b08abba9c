-- ===== src/Tools/Bursts/Tests.antt =====
-- The bursts of test1, test2 and test3 that the driver accepts.
use c4l.Common.{
  true, false, slt32, ◌<◌, ◌≤◌, some, ℕ, zero, suc, ◌+◌, ◌^◌, ◌%◌, ◌≡◌, refl, ◌∙◌, ap, arith, List,
  Bool, add32,
}
use c4l.Message.{Msg}
use c4l.Machine.{Access, St, Result, ok}
use c4l.Session.{Call}
use c4l.Session.Running.{Running}
use c4l.Tools.Drive.{Next, goes_on, drive, drive_runs, ArePauses, HasEnded, Left-HasEnded}
use c4l.Tools.Bursts.Counters.{
  IsBefore, Counts, IsAfter, BurstsFrom, burst_of, no_burst-IsAfter, count_burst-IsAfter,
  runs_bursts, while_sleeping-sleeps, count_burst-sleeps,
}
use c4l.Tools.Bursts.{Burst, first_burst, after_burst, after_burst1, burst1, burst2, burst3}

after_burst-IsAfter :
    (soll sleeptime k n : ℕ) (s : Burst)
    → IsBefore k s
    → k < soll
    → soll ≤ 2 ^ 32
    → IsAfter soll sleeptime IsBefore
        (k + burst_of n)
        (after_burst (soll % 2 ^ 32) sleeptime s (ok n))
after_burst-IsAfter soll sleeptime k zero s b lt small =
    no_burst-IsAfter soll sleeptime IsBefore k s b b.count_is lt
after_burst-IsAfter soll sleeptime k (suc n) s b lt small =
    count_burst-IsAfter soll sleeptime IsBefore k (record s { shown = s.cnt; cnt = add32 s.cnt 1 })
      b.count_is lt small
      (record {
        shown_is = b.cnt_is ∙ ap (λ (i : ℕ). i % 2 ^ 32) (omega arith);
        cnt_is = omega (arith, b.cnt_is);
        count_is = omega (arith, b.count_is);
      })

after_burst1-IsAfter :
    (soll sleeptime k n : ℕ) (s : Burst)
    → Counts k s
    → k < soll
    → soll ≤ 2 ^ 32
    → IsAfter soll sleeptime Counts
        (k + burst_of n)
        (after_burst1 (soll % 2 ^ 32) sleeptime s (ok n))
after_burst1-IsAfter soll sleeptime k zero s c lt small =
    no_burst-IsAfter soll sleeptime Counts k s c c lt
after_burst1-IsAfter soll sleeptime k (suc n) s c lt small =
    count_burst-IsAfter soll sleeptime Counts k s c lt small (omega (arith, c))

burst_sleeps :
    (soll sleeptime : ℕ) (s s' : Burst) (n : ℕ)
    → after_burst (soll % 2 ^ 32) sleeptime s (ok n) ≡ goes_on s'
    → slt32 0 sleeptime ≡ true
burst_sleeps soll sleeptime s s' zero e = while_sleeping-sleeps sleeptime s s' e
burst_sleeps soll sleeptime s s' (suc n) e =
    count_burst-sleeps (soll % 2 ^ 32) sleeptime (record s { shown = s.cnt; cnt = add32 s.cnt 1 })
      s' e

burst1_sleeps :
    (soll sleeptime : ℕ) (s s' : Burst) (n : ℕ)
    → after_burst1 (soll % 2 ^ 32) sleeptime s (ok n) ≡ goes_on s'
    → slt32 0 sleeptime ≡ true
burst1_sleeps soll sleeptime s s' zero e = while_sleeping-sleeps sleeptime s s' e
burst1_sleeps soll sleeptime s s' (suc n) e = count_burst-sleeps (soll % 2 ^ 32) sleeptime s s' e

not_awake : {b : Bool} → b ≡ true → b ≡ false → ⊥
not_awake p q = absurd (cc)

-- A run of a loop on a device, and what the driver has accepted of it.
abbrev pub BurstRun :
    (ℕ → Burst → Type 0)
    → (ℕ → List Msg)
    → (Burst → List Msg)
    → (Burst → Result → Next Burst)
    → ℕ
    → ℕ
    → (List Access → ℕ × ℕ)
    → List (List Call)
    → St
    → Type 0
BurstRun Before burst to_send after soll sleeptime clock pauses st =
    (ms : List Msg) × (q : Next Burst) × (st' : St) × (drive to_send after clock pauses first_burst
        st
      ≡ some ((ms, q), st'))
    × Running st'
    × BurstsFrom soll sleeptime Before burst 0 ms q
    × (slt32 0 sleeptime ≡ false → HasEnded pauses q)

counted_run :
    (burst : ℕ → List Msg) (soll sleeptime : ℕ) (clock : List Access → ℕ × ℕ)
    (pauses : List (List Call)) (st : St)
    → 0 < soll
    → soll ≤ 2 ^ 32
    → ArePauses pauses
    → Running st
    → BurstRun IsBefore burst
        (λ (s : Burst). burst s.shown)
        (after_burst (soll % 2 ^ 32) sleeptime)
        soll
        sleeptime
        clock
        pauses
        st
counted_run burst soll sleeptime clock pauses st some_burst small paused h =
    let (ms, q, st', run, h', c, runs, left) =
      drive_runs (λ (s : Burst). burst s.shown) (after_burst (soll % 2 ^ 32) sleeptime) clock pauses
        first_burst st paused h in
    (
      ms,
      q,
      st',
      run,
      h',
      runs_bursts soll sleeptime IsBefore burst (λ (s : Burst). burst s.shown)
          (after_burst (soll % 2 ^ 32) sleeptime) (λ k s b. ap burst b.shown_is)
          (λ k n s b lt. after_burst-IsAfter soll sleeptime k n s b lt small) 0 first_burst ms q
          (record { shown_is = refl; cnt_is = refl; count_is = refl }) some_burst runs,
      λ awake.
          Left-HasEnded (λ (s : Burst). burst s.shown) (after_burst (soll % 2 ^ 32) sleeptime)
            pauses first_burst q
            (λ s1 s2 n is. not_awake (burst_sleeps soll sleeptime s1 s2 n is) awake) left,
    )

-- On a running device, with any calls of the driver between the writes that write nothing and set no bit rate of 0, what the
-- driver accepts of test1, test2 or test3 are the starts of one burst after another, in test2 and test3 each with its number as
-- the counter in its last message, and the device stays running. The target count is that of `soll` bursts, of at least 1 and at
-- most 2 ^ 32, as a 32-bit integer. There are at most `soll` bursts, and fewer as long as the test has not ended; it ends only after
-- `soll` of them, or without a sleep time, and then it has ended after the first write, whether or not the driver has taken anything
-- of it. A write of which nothing was taken counts for no burst.
pub drive_bursts :
    (stack : ℕ → Msg) (id : ℕ) (extd : Bool) (soll sleeptime : ℕ) (clock : List Access → ℕ × ℕ)
    (pauses : List (List Call)) (st : St)
    → 0 < soll
    → soll ≤ 2 ^ 32
    → ArePauses pauses
    → Running st
    → BurstRun Counts
        (λ k. burst1 stack id extd)
        (λ s. burst1 stack id extd)
        (after_burst1 (soll % 2 ^ 32) sleeptime)
        soll
        sleeptime
        clock
        pauses
        st
      × BurstRun IsBefore
          (burst2 stack id extd)
          (λ s. burst2 stack id extd s.shown)
          (after_burst (soll % 2 ^ 32) sleeptime)
          soll
          sleeptime
          clock
          pauses
          st
      × BurstRun IsBefore
          (burst3 stack id extd)
          (λ s. burst3 stack id extd s.shown)
          (after_burst (soll % 2 ^ 32) sleeptime)
          soll
          sleeptime
          clock
          pauses
          st
drive_bursts stack id extd soll sleeptime clock pauses st some_burst small paused h =
    let tm : List Msg = burst1 stack id extd in
    let (ms, q, st', run, h', c, runs, left) =
      drive_runs (λ (s : Burst). tm) (after_burst1 (soll % 2 ^ 32) sleeptime) clock pauses
        first_burst st paused h in
    (
      (
        ms,
        q,
        st',
        run,
        h',
        runs_bursts soll sleeptime Counts (λ (k : ℕ). tm) (λ (s : Burst). tm)
            (after_burst1 (soll % 2 ^ 32) sleeptime) (λ k s b. refl)
            (λ k n s b lt. after_burst1-IsAfter soll sleeptime k n s b lt small) 0 first_burst ms q
            refl some_burst runs,
        λ awake.
            Left-HasEnded (λ (s : Burst). tm) (after_burst1 (soll % 2 ^ 32) sleeptime) pauses
              first_burst q
              (λ s1 s2 n is. not_awake (burst1_sleeps soll sleeptime s1 s2 n is) awake) left,
      ),
      counted_run (burst2 stack id extd) soll sleeptime clock pauses st some_burst small paused h,
      counted_run (burst3 stack id extd) soll sleeptime clock pauses st some_burst small paused h,
    )

-- ===== src/Tools/Single/Once.antt =====
-- The loop of main in can_send.c.
use c4l.Common.{
  ℕ, zero, suc, ◌≤◌, ◌≡◌, inl, inr, refl, ◌∙◌, ap, subst, arith, some, List, [], ◌++◌, length, true,
  Bool, false, Bool-cases, add32, slt32,
}
use c4l.Message.{Msg}
use c4l.Machine.{Access, St, ok}
use c4l.Session.{Call}
use c4l.Session.Running.{Running}
use c4l.Tools.Drive.{
  Next, goes_on, ends, Runs, stays, last, round, drive, drive_runs, ArePauses, HasEnded,
  Left-HasEnded,
}
use c4l.Tools.Single.{with_id, while_default, after_default}

-- `len` messages, each with the id of the one before and the increment.
abbrev pub increasing : Msg → ℕ → ℕ → ℕ → List Msg
increasing m increment id zero = []
increasing m increment id (suc len) =
    with_id m id ++ increasing m increment (add32 id increment) len

-- The id after a write of `k` messages.
abbrev after_id : ℕ → ℕ → ℕ → ℕ
after_id increment id zero = id
after_id increment id (suc k) = add32 id increment

abbrev Sleeps : ℕ → ℕ → Next ℕ → Type 0
Sleeps sleeptime id (goes_on id') = (id' ≡ id) × (slt32 0 sleeptime ≡ true)
Sleeps sleeptime id (ends id') = slt32 0 sleeptime ≡ false

while_default-Sleeps : (sleeptime id : ℕ) → Sleeps sleeptime id (while_default sleeptime id)
while_default-Sleeps sleeptime id = elim (Bool-cases (slt32 0 sleeptime)) [
  | inl sleeps ↦ rw sleeps (refl, sleeps)
  | inr awake ↦ rw awake awake
]

after_default-Sleeps :
    (increment sleeptime id k : ℕ)
    → Sleeps sleeptime (after_id increment id k) (after_default increment sleeptime id (ok k))
after_default-Sleeps increment sleeptime id zero = while_default-Sleeps sleeptime id
after_default-Sleeps increment sleeptime id (suc k) =
    while_default-Sleeps sleeptime (add32 id increment)

-- The loop goes on just with a sleep time.
goes_on-sleeps :
    (increment sleeptime id id' k : ℕ)
    → after_default increment sleeptime id (ok k) ≡ goes_on id'
    → slt32 0 sleeptime ≡ true
goes_on-sleeps increment sleeptime id id' k is =
    (subst (Sleeps sleeptime (after_id increment id k)) is
      (after_default-Sleeps increment sleeptime id k)).1

-- The loop ends just without a sleep time.
abbrev pub EndsAwake : ℕ → Next ℕ → Type 0
EndsAwake sleeptime (goes_on id) = Unit {0}
EndsAwake sleeptime (ends id) = slt32 0 sleeptime ≡ false

module _ (m : Msg) (increment sleeptime : ℕ) where
  abbrev pub Increasing : ℕ → List Msg → Next ℕ → Type 0
  Increasing id ms q =
      (ms ≡ increasing m increment id (length ms))
      × (slt32 0 sleeptime ≡ false → length ms ≤ 1)
      × EndsAwake sleeptime q

  runs_default :
      (id : ℕ) (ms : List Msg) (q : Next ℕ)
      → Runs (with_id m) (after_default increment sleeptime) id ms q
      → Increasing id ms q
  runs_default id ms q (stays _) = (refl, (λ e. omega arith), tt)
  runs_default id ms q (last _ id' zero most is) = (
    refl,
    (λ e. omega arith),
    subst (Sleeps sleeptime id) is (after_default-Sleeps increment sleeptime id 0),
  )
  runs_default id ms q (last _ id' (suc zero) most is) = (
    refl,
    (λ e. omega arith),
    subst (Sleeps sleeptime (add32 id increment)) is
        (after_default-Sleeps increment sleeptime id 1),
  )
  runs_default id ms q (last _ id' (suc (suc k)) most is) = absurd (omega (arith, most))
  runs_default id ms q (round _ id' zero ms' _ most is rest) =
      let (same, sleeps) =
        subst (Sleeps sleeptime id) is (after_default-Sleeps increment sleeptime id 0) in
      let (all, few, awake) = runs_default id' ms' q rest in
      (all ∙ ap (λ (i : ℕ). increasing m increment i (length ms')) same, few, awake)
  runs_default id ms q (round _ id' (suc zero) ms' _ most is rest) =
      let (same, sleeps) =
        subst (Sleeps sleeptime (add32 id increment)) is
          (after_default-Sleeps increment sleeptime id 1) in
      let (all, few, awake) = runs_default id' ms' q rest in
      (
        ap (λ (l : List Msg). with_id m id ++ l)
            (all ∙ ap (λ (i : ℕ). increasing m increment i (length ms')) same),
        (λ e. cc),
        awake,
      )
  runs_default id ms q (round _ id' (suc (suc k)) ms' _ most is rest) = absurd (omega (arith, most))

-- On a running device, with any calls of the driver between the writes that write nothing and set no bit rate of 0, what the
-- driver accepts of the loop of main is the message again and again, each time with the id increased. Without a sleep time
-- there is one message at most, and the loop has ended after the first write, whether or not the driver has taken the message;
-- with a sleep time it does not end.
pub drive_default :
    (m : Msg) (increment sleeptime : ℕ) (clock : List Access → ℕ × ℕ) (pauses : List (List Call))
    (st : St)
    → ArePauses pauses
    → Running st
    → (ms : List Msg) × (q : Next ℕ) × (st' : St) × (drive
          (with_id m)
          (after_default increment sleeptime)
          clock
          pauses
          m.id
          st
        ≡ some ((ms, q), st'))
      × Running st'
      × Increasing m increment sleeptime m.id ms q
      × (slt32 0 sleeptime ≡ false → HasEnded pauses q)
drive_default m increment sleeptime clock pauses st paused h =
    let (ms, q, st', run, h', c, runs, left) =
      drive_runs (with_id m) (after_default increment sleeptime) clock pauses m.id st paused h in
    (
      ms,
      q,
      st',
      run,
      h',
      runs_default m increment sleeptime m.id ms q runs,
      λ awake.
          Left-HasEnded (with_id m) (after_default increment sleeptime) pauses m.id q
            (λ s1 s2 n is. not_awake (goes_on-sleeps increment sleeptime s1 s2 n is) awake) left,
    )
  where
    not_awake : {b : Bool} → b ≡ true → b ≡ false → ⊥
    not_awake p q = absurd (cc)

-- ===== src/Tools/Test10/Sends.antt =====
-- What test10 sends is what can_verify takes for right.
use c4l.Common.{
  ℕ, suc, ◌+◌, ◌*◌, ◌-◌, ◌^◌, ◌<◌, ◌≤◌, ◌≡◌, inl, inr, refl, ◌∙◌, sym, ap, subst, arith, List, ◌++◌,
  Bool, true, false, Bool-cases, ◌==◌, add32, take, length, length-append, ap₂,
}
use c4l.Message.{Msg}
use c4l.Machine.{ok}
use c4l.Tools.Sequence.{update_seq}
use c4l.Tools.Stream.{nth_seq, update_seq-nth_seq}
use c4l.Tools.Drive.{Next, goes_on, ends, Runs, stays, last, round}
use c4l.Tools.Test10.{Sender, rest_of_seq, after_write}
use c4l.Tools.Test10.Stretch.{
  stretch, length-stretch, nth_seq-stretch, drop-stretch, take-stretch, stretch_append,
}

-- The variables of test10 in sequence `k`, after `start` messages of it.
pub record IsAt (extd : Bool) (k start : ℕ) (s : Sender) : Type 0 where
  pub tm_is : s.tm ≡ nth_seq extd k
  pub start_is : s.start ≡ start
  pub seq_is : s.seq ≡ 9 - start
  pub count_is : s.test_count ≡ k
  pub some_left : start < 9

rest_is :
    (extd : Bool) (k start : ℕ) (s : Sender)
    → IsAt extd k start s
    → rest_of_seq s ≡ stretch extd (9 * k + start) (9 - start)
rest_is extd k start s a =
    rw
      (
        a.tm_is,
        a.start_is,
        a.seq_is,
        nth_seq-stretch extd k,
        drop-stretch extd (9 * k) start 9 (omega (arith, a.some_left)),
      )
      (take-stretch extd (9 * k + start) (9 - start) (9 - start) (omega arith))

-- After a write of `n` of these messages: it ends with all sequences sent, or is at the next message.
abbrev Follows : Bool → ℕ → ℕ → ℕ → ℕ → Next Sender → Type 0
Follows extd soll k start n (ends s) = 9 * k + start + n ≡ 9 * soll
Follows extd soll k start n (goes_on s) =
    (k' : ℕ) × (start' : ℕ) × (9 * k' + start' ≡ 9 * k + start + n)
    × (k' < soll)
    × IsAt extd k' start' s

follows :
    (extd : Bool) (soll k start n : ℕ) (s : Sender)
    → IsAt extd k start s
    → k < soll
    → soll < 2 ^ 32
    → n ≤ 9 - start
    → Follows extd soll k start n (after_write extd soll s (ok n))
follows extd soll k start n s a more fits most = elim (Bool-cases (n == 0)) [
  | inl zero_written ↦ rw zero_written (k, start, ground arith, more, a)
  | inr written ↦ elim (Bool-cases (s.seq - n == 0)) [
    | inr left ↦
        rw (written, left)
          (
            k,
            start + n,
            omega arith,
            more,
            record {
              tm_is = a.tm_is;
              start_is = ap (λ (i : ℕ). i + n) a.start_is;
              seq_is = omega (arith, a.seq_is);
              count_is = a.count_is;
              some_left = ground (arith, a.seq_is, left, most);
            },
          )
    | inl all ↦ elim (Bool-cases (add32 s.test_count 1 == soll)) [
      | inl enough ↦ rw (written, all, enough) (ground (arith, a.seq_is, a.count_is, a.some_left))
      | inr others ↦
          rw (written, all, others)
            (
              suc k,
              0,
              omega (arith, all_sent all),
              not_enough others,
              record {
                tm_is = ap (update_seq extd) a.tm_is ∙ update_seq-nth_seq extd k;
                start_is = refl;
                seq_is = refl;
                count_is = counted;
                some_left = omega arith;
              },
            )
    ]
  ]
]
  where
    counted : add32 s.test_count 1 ≡ suc k
    counted = omega (arith, a.count_is, more, fits)

    not_enough : (add32 s.test_count 1 == soll) ≡ false → suc k < soll
    not_enough e = ground (arith, counted, e, more)

    all_sent : (s.seq - n == 0) ≡ true → n ≡ 9 - start
    all_sent e = ground (arith, a.seq_is, most, e)

-- What has been accepted since: a stretch of the stream, all of it at the end, and less before.
abbrev pub Amount : ℕ → ℕ → Next Sender → Type 0
Amount soll total (ends s) = total ≡ 9 * soll
Amount soll total (goes_on s) = total < 9 * soll

abbrev pub IsStretch : Bool → ℕ → ℕ → List Msg → Next Sender → Type 0
IsStretch extd soll n ms q = (ms ≡ stretch extd n (length ms)) × Amount soll (n + length ms) q

one_write :
    (extd : Bool) (k start n : ℕ) (s : Sender)
    → IsAt extd k start s
    → n ≤ length (rest_of_seq s)
    → (n ≤ 9 - start) × (take n (rest_of_seq s) ≡ stretch extd (9 * k + start) n)
one_write extd k start n s a most =
    let left = rest_is extd k start s a in
    let fits : n ≤ 9 - start =
      omega (arith, most, ap length left, length-stretch extd (9 * k + start) (9 - start)) in
    (fits, ap (take n) left ∙ take-stretch extd (9 * k + start) n (9 - start) fits)

joined :
    (extd : Bool) (soll n m d : ℕ) (l ms : List Msg) (q : Next Sender)
    → l ≡ stretch extd n d
    → m ≡ n + d
    → IsStretch extd soll m ms q
    → IsStretch extd soll n (l ++ ms) q
joined extd soll n m d l ms q first next (rest, amount) =
    let size : length (l ++ ms) ≡ d + length ms =
      length-append l ms
      ∙ ap (λ (i : ℕ). i + length ms) (ap length first ∙ length-stretch extd n d) in
    (
      ap₂ (λ (a b : List Msg). a ++ b) first
            (rest ∙ ap (λ (i : ℕ). stretch extd i (length ms)) next)
          ∙ stretch_append extd n d (length ms)
          ∙ ap (stretch extd n) (sym size),
      subst (λ (i : ℕ). Amount soll i q) (omega (arith, size, next)) amount,
    )

module _ (extd : Bool) (soll : ℕ) (fits : soll < 2 ^ 32) where
  pub runs_on :
      (k start : ℕ) (s : Sender) (ms : List Msg) (q : Next Sender)
      → IsAt extd k start s
      → k < soll
      → Runs rest_of_seq (after_write extd soll) s ms q
      → IsStretch extd soll (9 * k + start) ms q
  runs_on k start s ms q a more (stays _) = (refl, omega (arith, more, a.some_left))
  runs_on k start s ms q a more (last _ s' n most is) =
      let (small, taken) = one_write extd k start n s a most in
      let size : length (take n (rest_of_seq s)) ≡ n =
        ap length taken ∙ length-stretch extd (9 * k + start) n in
      let total =
        subst (Follows extd soll k start n) is (follows extd soll k start n s a more fits small) in
      (taken ∙ ap (stretch extd (9 * k + start)) (sym size), omega (arith, size, total))
  runs_on k start s ms q a more (round _ s' n ms' _ most is rest) =
      let (small, taken) = one_write extd k start n s a most in
      let (k', start', here, more', a') =
        subst (Follows extd soll k start n) is (follows extd soll k start n s a more fits small) in
      joined extd soll (9 * k + start) (9 * k' + start') n (take n (rest_of_seq s)) ms' q taken here
        (runs_on k' start' s' ms' q a' more' rest)

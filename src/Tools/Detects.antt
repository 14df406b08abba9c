-- ===== src/Tools/Detects.antt =====
-- can_verify complains of all other messages than those of test 10, as far as it looks at their data.
use c4l.Common.{
  ◌++◌, ℕ, suc, ◌/◌, ◌%◌, ◌^◌, ◌<◌, ◌≡◌, inl, inr, refl, ◌∙◌, ap, sym, subst, arith, List, [], ◌∷◌,
  ◌++◌, Bool, true, false, Bool-cases, ◌==◌, ==_iff, take, length, from_short,
}
use c4l.Message.{Msg}
use c4l.Tools.Bytes.{le_value}
use c4l.Tools.Stream.{period}
use c4l.Tools.Verify.{
  fresh, Verifier, Complaint, fresh, good_data, next_id, verify_message, verify_all, verify_all,
}
use c4l.Tools.Accepts.{
  IsChecked, Matches, MatchFrom, value_one, verify_all-accepts, state_at, counted, id_goes_on,
}

data_shows :
    (seq len : ℕ) (bytes : List ℕ)
    → seq < 2 ^ 64
    → good_data seq len bytes ≡ true
    → IsChecked len
    → le_value (take len bytes) ≡ seq % 256 ^ len
data_shows seq len bytes small h checked = at_length checked h
  where
    Shows : ℕ → Type 0
    Shows len = good_data seq len bytes ≡ true → le_value (take len bytes) ≡ seq % 256 ^ len

    at_length : IsChecked len → Shows len
    at_length (inl e) = subst Shows (sym e) (λ h. value_one bytes ∙ sym ((==_iff _ _).0 h))
    at_length (inr (inl e)) = subst Shows (sym e) (λ h. sym ((==_iff _ _).0 h))
    at_length (inr (inr (inl e))) = subst Shows (sym e) (λ h. sym ((==_iff _ _).0 h))
    at_length (inr (inr (inr e))) =
        subst Shows (sym e) (λ h. sym ((==_iff _ _).0 h) ∙ omega (arith, small))

complains :
    {v v' : Verifier} {c : Complaint} {cs : List Complaint}
    → ¬ (◌≡◌ {A = Verifier × List Complaint} (v, c ∷ cs) (v', []))
complains e = omega (arith, ap (λ (p : Verifier × List Complaint). length p.1) e)

-- Without a complaint a message is the expected one, and so is the next.
one_detected :
    (extd : Bool) (n : ℕ) (m : Msg) (v : Verifier)
    → verify_message extd m (state_at extd n) ≡ (v, [])
    → Matches extd n m × (v ≡ state_at extd (suc n))
unfolding verify_message
one_detected extd n m v e = elim (Bool-cases (n % period extd == m.id)) [
  | inr other_id ↦ absurd (complains (rw other_id at e))
  | inl same_id ↦ elim (Bool-cases (n % 9 == from_short m.length)) [
    | inr other_length ↦ absurd (complains (rw (same_id, other_length) at e))
    | inl same_length ↦
        elim (Bool-cases (good_data (n / 9 % 2 ^ 64) (from_short m.length) m.bytes)) [
          | inr bad ↦ absurd (complains (rw (same_id, same_length, bad) at e))
          | inl good ↦ (
            matching same_id same_length good,
            sym (ap (λ (p : Verifier × List Complaint). p.0) (rw (same_id, same_length, good) at e))
                ∙ ap (next_id extd) (counted extd n)
                ∙ id_goes_on extd n _ _,
          )
        ]
  ]
]
  where
    matching :
        (n % period extd == m.id) ≡ true
        → (n % 9 == from_short m.length) ≡ true
        → good_data (n / 9 % 2 ^ 64) (from_short m.length) m.bytes ≡ true
        → Matches extd n m
    matching a b c =
        let len : from_short m.length ≡ n % 9 = sym ((==_iff _ _).0 b) in
        record {
          id_is = sym ((==_iff _ _).0 a);
          length_is = len;
          shows =
              data_shows (n / 9 % 2 ^ 64) (n % 9) m.bytes (omega arith)
                (sym (ap (λ (l : ℕ). good_data (n / 9 % 2 ^ 64) l m.bytes) len) ∙ c);
        }

nothing_left : (a b : List Complaint) → a ++ b ≡ [] → (a ≡ []) × (b ≡ [])
nothing_left [] b e = (refl, e)
nothing_left (c ∷ a) b e = absurd (omega (arith, ap (λ (l : List Complaint). length l) e))

verify_all-MatchFrom :
    (extd : Bool) (n : ℕ) (ms : List Msg) (v : Verifier)
    → verify_all extd ms (state_at extd n) ≡ (v, [])
    → MatchFrom extd n ms
unfolding verify_all
verify_all-MatchFrom extd n [] v e = tt
verify_all-MatchFrom extd n (m ∷ ms) v e =
    let p = verify_message extd m (state_at extd n) in
    let q = verify_all extd ms p.0 in
    let (none_here, none_after) =
      nothing_left p.1 q.1 (ap (λ (r : Verifier × List Complaint). r.1) e) in
    let (here, next) = one_detected extd n m p.0 (ap (λ c. (p.0, c)) none_here) in
    (
      here,
      verify_all-MatchFrom extd (suc n) ms q.0
          (ap (verify_all extd ms) (sym next) ∙ ap (λ c. (q.0, c)) none_after),
    )

first_state : (extd : Bool) → state_at extd 0 ≡ fresh
first_state true = refl
first_state false = refl

-- can_verify complains of nothing just if the messages are those of test 10 of can_send from the first one on: each has the id
-- and the length of its place in the stream and, if its length is 1, 2, 4 or 8, the number of its sequence as its data.
pub verify_all_iff :
    (extd : Bool) (ms : List Msg)
    → (MatchFrom extd 0 ms → (verify_all extd ms fresh).1 ≡ [])
      × ((verify_all extd ms fresh).1 ≡ [] → MatchFrom extd 0 ms)
verify_all_iff extd ms = (
  λ h.
      ap (λ (p : Verifier × List Complaint). p.1)
        (ap (verify_all extd ms) (sym (first_state extd)) ∙ verify_all-accepts extd 0 ms h),
  λ e.
      verify_all-MatchFrom extd 0 ms (verify_all extd ms fresh).0 (
        ap (verify_all extd ms) (first_state extd) ∙ ap (λ c. ((verify_all extd ms fresh).0, c)) e),
)

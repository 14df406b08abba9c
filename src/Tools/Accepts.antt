-- ===== src/Tools/Accepts.antt =====
-- can_verify takes the messages of test 10 of can_send for what they are.
use c4l.Common.{
  ◌++◌, length, ◌⊎◌, ℕ, suc, ◌+◌, ◌/◌, ◌%◌, ◌^◌, ◌<◌, ◌≡◌, inl, inr, refl, ◌∙◌, ap, ap₂, sym, arith,
  List, [], ◌∷◌, Bool, true, false, Bool-cases, ◌==◌, ==_iff, ==_refl, get_or, take, from_short,
  subst,
}
use c4l.Message.{Msg}
use c4l.Tools.Bytes.{le_value}
use c4l.Tools.Stream.{period}
use c4l.Tools.Verify.{
  Complaint, Verifier, good_data, count_msg, next_id, verify_message, verify_all,
}

-- The lengths whose data is looked at.
abbrev pub IsChecked : ℕ → Type 0
IsChecked len = (len ≡ 1) ⊎ (len ≡ 2) ⊎ (len ≡ 4) ⊎ (len ≡ 8)

-- The message has the id and the length of message `n` of the stream, and the number of the sequence in its data, as far as
-- it goes, if the length is one of those.
pub record Matches (extd : Bool) (n : ℕ) (m : Msg) : Type 0 where
  pub id_is : m.id ≡ n % period extd
  pub length_is : from_short m.length ≡ n % 9
  pub shows : IsChecked (n % 9) → le_value (take (n % 9) m.bytes) ≡ n / 9 % 2 ^ 64 % 256 ^ (n % 9)

abbrev pub MatchFrom : Bool → ℕ → List Msg → Type 0
MatchFrom extd n [] = Unit {0}
MatchFrom extd n (m ∷ ms) = Matches extd n m × MatchFrom extd (suc n) ms

pub value_one : (bytes : List ℕ) → le_value (take 1 bytes) ≡ get_or bytes 0 0
unfolding le_value
value_one [] = refl
value_one (b ∷ bytes) = omega arith

-- Data that shows the number of the sequence passes the check.
data_passes :
    (seq len : ℕ) (bytes : List ℕ)
    → seq < 2 ^ 64
    → (IsChecked len → le_value (take len bytes) ≡ seq % 256 ^ len)
    → good_data seq len bytes ≡ true
data_passes seq len bytes small h = elim (Bool-cases (len == 1)) [
  | inl e ↦ rw e ((==_iff _ _).1 (sym (shown 1 e (λ is. inl is)) ∙ value_one bytes))
  | inr not_one ↦ elim (Bool-cases (len == 2)) [
    | inl e ↦ rw (not_one, e) ((==_iff _ _).1 (sym (shown 2 e (λ is. inr (inl is)))))
    | inr not_two ↦ elim (Bool-cases (len == 4)) [
      | inl e ↦
          rw (not_one, not_two, e) ((==_iff _ _).1 (sym (shown 4 e (λ is. inr (inr (inl is))))))
      | inr not_four ↦ elim (Bool-cases (len == 8)) [
        | inl e ↦
            rw (not_one, not_two, not_four, e)
              ((==_iff _ _).1 (sym (shown 8 e (λ is. inr (inr (inr is))) ∙ whole)))
        | inr other ↦ rw (not_one, not_two, not_four, other) refl
      ]
    ]
  ]
]
  where
    shown :
        (k : ℕ)
        → (len == k) ≡ true
        → (len ≡ k → IsChecked len)
        → le_value (take k bytes) ≡ seq % 256 ^ k
    shown k e checked =
        let is = (==_iff len k).0 e in
        subst (λ (l : ℕ). le_value (take l bytes) ≡ seq % 256 ^ l) is (h (checked is))

    whole : seq % 256 ^ 8 ≡ seq
    whole = omega (arith, small)

abbrev pub state_at : Bool → ℕ → Verifier
state_at extd n = record { iseq = n % 9; seq = n / 9 % 2 ^ 64; id = n % period extd; errs = 0 }

-- The counters of the expected message go on.
pub counted :
    (extd : Bool) (n : ℕ)
    → count_msg (state_at extd n)
      ≡ record (state_at extd n) { iseq = suc n % 9; seq = suc n / 9 % 2 ^ 64 }
counted extd n = elim (Bool-cases (n % 9 + 1 == 9)) [
  | inl last ↦ rw last (with_counters (ground arith) (ground arith))
  | inr others ↦ rw others (with_counters (ground arith) (ground arith))
]
  where
    with_counters :
        {i j s t : ℕ}
        → i ≡ j
        → s ≡ t
        → ◌≡◌ {A = Verifier}
            (record { iseq = i; seq = s; id = n % period extd; errs = 0 })
            (record { iseq = j; seq = t; id = n % period extd; errs = 0 })
    with_counters e f =
        ap₂ (λ (a b : ℕ). record { iseq = a; seq = b; id = n % period extd; errs = 0 }) e f

pub id_goes_on :
    (extd : Bool) (n iseq seq : ℕ)
    → next_id extd (record { iseq = iseq; seq = seq; id = n % period extd; errs = 0 })
      ≡ record { iseq = iseq; seq = seq; id = suc n % period extd; errs = 0 }
id_goes_on true n iseq seq = elim (Bool-cases (n % 536870907 == 536870906)) [
  | inl last ↦
      rw last (ap (λ (i : ℕ). record { iseq = iseq; seq = seq; id = i; errs = 0 }) (ground arith))
  | inr others ↦
      rw others (ap (λ (i : ℕ). record { iseq = iseq; seq = seq; id = i; errs = 0 }) (ground arith))
]
id_goes_on false n iseq seq = elim (Bool-cases (n % 2043 == 2042)) [
  | inl last ↦
      rw last (ap (λ (i : ℕ). record { iseq = iseq; seq = seq; id = i; errs = 0 }) (ground arith))
  | inr others ↦
      rw others (ap (λ (i : ℕ). record { iseq = iseq; seq = seq; id = i; errs = 0 }) (ground arith))
]

pub one_accepted :
    (extd : Bool) (n : ℕ) (m : Msg)
    → Matches extd n m
    → verify_message extd m (state_at extd n) ≡ (state_at extd (suc n), [])
unfolding verify_message
one_accepted extd n m a =
    rw (a.id_is, ==_refl, a.length_is, ==_refl, passes)
      (ap (λ (v : Verifier). (v, [])) (ap (next_id extd) (counted extd n) ∙ id_goes_on extd n _ _))
  where
    passes : good_data (n / 9 % 2 ^ 64) (n % 9) m.bytes ≡ true
    passes = data_passes (n / 9 % 2 ^ 64) (n % 9) m.bytes (omega arith) a.shows

-- What verify_all makes of the result for the first message.
abbrev pub and_then : Bool → List Msg → Verifier × List Complaint → Verifier × List Complaint
and_then extd ms p = let q = verify_all extd ms p.0 in (q.0, p.1 ++ q.1)

pub verify_all-accepts :
    (extd : Bool) (n : ℕ) (ms : List Msg)
    → MatchFrom extd n ms
    → verify_all extd ms (state_at extd n) ≡ (state_at extd (n + length ms), [])
unfolding verify_all
verify_all-accepts extd n [] h = ap (λ (k : ℕ). (state_at extd k, [])) (omega arith)
verify_all-accepts extd n (m ∷ ms) (a, rest) =
    ap (and_then extd ms) (one_accepted extd n m a)
    ∙ verify_all-accepts extd (suc n) ms rest
    ∙ ap (λ (k : ℕ). (state_at extd k, [])) (omega arith)

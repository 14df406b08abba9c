-- ===== src/Frame/Timing.antt =====
-- The timer of a device: what kapi_schedule_delayed makes of it.
use c4l.Common.{
  ℕ, zero, suc, ◌+◌, ◌<◌, ◌≡◌, inl, inr, refl, ◌∙◌, sym, ap, subst, arith, Option, none, some, List,
  [], ◌∷◌, true, length, length-set, set, get_elem?, ◌==◌, Bool-cases, ==_iff,
}
use c4l.Machine.{Timer, St}
use c4l.Chip.Requests.{SameTimers}
use c4l.Frame.{max_channels, started, start_timer, schedule_on}

-- There is a timer for the device: its own, or a free one.
abbrev pub HasTimer : St → Type 0
HasTimer st =
    (length st.dly ≡ max_channels)
    × ((i : ℕ) → st.dev.delayedwork ≡ some i → i < max_channels)
    × (st.dev.delayedwork ≡ none → st.idly < max_channels)

-- The device has a timer of its own, which has been started and has not expired.
abbrev pub OwnsTimer : St → Type 0
OwnsTimer st =
    (i : ℕ) × (t : Timer) × (st.dev.delayedwork ≡ some i)
    × (get_elem? st.dly i ≡ some t)
    × (t.armed ≡ true)

-- The device's timer has been started with a time of `usec` microseconds.
abbrev pub StartsTimer : ℕ → St → Type 0
StartsTimer usec st =
    (i : ℕ) × (st.dev.delayedwork ≡ some i)
    × (get_elem? st.dly i ≡ some (started usec st.dev.minor))

pub StartsTimer-OwnsTimer : (usec : ℕ) (st : St) → StartsTimer usec st → OwnsTimer st
StartsTimer-OwnsTimer usec st (i, own, here) = (i, started usec st.dev.minor, own, here, refl)

pub HasTimer-same :
    (a b : St) → HasTimer a → b.dev.delayedwork ≡ a.dev.delayedwork → SameTimers a b → HasTimer b
HasTimer-same a b (all, own, free) work (idly, dly) = (
  ap (λ (l : List Timer). length l) dly ∙ all,
  (λ i e. own i (sym work ∙ e)),
  λ e. subst (λ (n : ℕ). n < max_channels) (sym idly) (free (sym work ∙ e)),
)

get_elem?-set :
    (l : List Timer) (i : ℕ) (t : Timer) → i < length l → get_elem? (set l i t) i ≡ some t
get_elem?-set [] i t h = absurd (omega (arith, h))
get_elem?-set (x ∷ l) zero t h = refl
get_elem?-set (x ∷ l) (suc i) t h = get_elem?-set l i t (omega (arith, h))

-- `schedule_on` changes only the timers and the device's, and starts the device's timer if there is one.
pub schedule_on_lem :
    (o : Option ℕ) (usec : ℕ) (st : St)
    → (st' : St) × (schedule_on o usec st ≡ some (tt, st'))
      × (st'.log ≡ st.log)
      × (st'.vars ≡ st.vars)
      × (st'.dev ≡ record st.dev { delayedwork = st'.dev.delayedwork })
      × (o ≡ st.dev.delayedwork → HasTimer st → StartsTimer usec st' × HasTimer st')
schedule_on_lem none usec st = elim (Bool-cases (st.idly == max_channels)) [
  | inl full ↦ (
    st,
    unfold schedule_on in rw full,
    refl,
    refl,
    refl,
    λ e (all, own, free). absurd (omega (arith, (==_iff _ _).0 full, free (sym e))),
  )
  | inr room ↦ (
    timed,
    unfold schedule_on in rw room,
    refl,
    refl,
    refl,
    λ e (all, own, free).
        let small : st.idly < max_channels = free (sym e) in
        (
          (st.idly, refl, get_elem?-set st.dly st.idly _ (omega (arith, small, all))),
          (
            length-set st.dly st.idly _ ∙ all,
            (λ i is. subst (λ (o : Option ℕ). at_most o) is small),
            λ is. absurd (cc),
          ),
        ),
  )
]
  where
    timed : St
    timed =
        start_timer st.idly usec
          (record st { dev = record st.dev { delayedwork = some st.idly }; idly = st.idly + 1 })

    at_most : Option ℕ → Type 0
    at_most none = Unit {0}
    at_most (some i) = i < max_channels
schedule_on_lem (some i) usec st = (
  start_timer i usec st,
  unfold schedule_on in refl,
  refl,
  refl,
  refl,
  λ e (all, own, free). (
    (i, sym e, get_elem?-set st.dly i _ (omega (arith, own i (sym e), all))),
    (length-set st.dly i _ ∙ all, own, free),
  ),
)

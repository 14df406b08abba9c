-- ===== src/Pci/Runs.antt =====
-- Parts of the scan that stay within the arrays of the channels.
use c4l.Common.{
  ℕ, ◌<◌, ◌≡◌, refl, ◌∙◌, ap, arith, some, List, Bool, true, false, ◌==◌, if◌then◌else◌, length,
  get_elem?-eq-get_or, get_or, ==_refl, set, length-set, bit_and, u8,
}
use c4l.Machine.{Access}
use c4l.Pci.{
  Pci, P, pure, ◌>>=◌, readb, write_mem, put, control_at, set_control, set_channel, answers,
  and_also,
}

pub >>=-some :
    {A B : Type 0} (m : P A) (f : A → P B) {a : A} {st st' : Pci}
    → m st ≡ some (a, st')
    → (m >>= f) st ≡ f a st'
>>=-some m f e = rw (e, ◌>>=◌)

-- The arrays have their four elements, and the board answers by `env`.
pub record Sized (env : List Access → ℕ → ℕ) (st : Pci) : Type 0 where
  pub controls : length st.control ≡ 4
  pub bases : length st.base ≡ 4
  pub models : length st.io_model ≡ 4
  pub interrupts : length st.irqs ≡ 4
  pub answered : st.env ≡ env

abbrev pub Any : {A : Type 0} → A → Type 0
Any a = Unit {0}

module _ (env : List Access → ℕ → ℕ) where
  abbrev pub RunsAt : {A : Type 0} → P A → (A → Type 0) → Pci → Type 0
  RunsAt {A} m Q st = (a : A) × (st' : Pci) × (m st ≡ some (a, st')) × Sized env st' × Q a

  -- A part that stays within the arrays, with a result as `Q` says.
  pub record Runs {A : Type 0} (m : P A) (Q : A → Type 0) : Type 0 where
    pub at : (st : Pci) → Sized env st → RunsAt m Q st

  pub pure-Runs : {A : Type 0} (a : A) (Q : A → Type 0) → Q a → Runs (pure a) Q
  pure-Runs a Q q = record { at = λ st h. (a, st, refl, h, q) }

  pub >>=-Runs :
      {A B : Type 0} (m : P A) (f : A → P B) (Q : A → Type 0) (R : B → Type 0)
      → Runs m Q
      → ((a : A) → Q a → Runs (f a) R)
      → Runs (m >>= f) R
  >>=-Runs {A} {B} m f Q R p q = record { at = go }
    where
      go : (st : Pci) → Sized env st → RunsAt (m >>= f) R st
      go st h =
          let (a, st1, run1, h1, qa) = p.at st h in
          let (b, st2, run2, h2, rb) = (q a qa).at st1 h1 in
          (b, st2, >>=-some m f run1 ∙ run2, h2, rb)

  pub if-Runs :
      {A : Type 0} (b : Bool) (m n : P A) (Q : A → Type 0)
      → Runs m Q
      → Runs n Q
      → Runs (if b then m else n) Q
  if-Runs true m n Q p q = p
  if-Runs false m n Q p q = q

  logged : {st : Pci} (log : List Access) → Sized env st → Sized env (record st { log = log })
  logged log h = record {
    controls = h.controls;
    bases = h.bases;
    models = h.models;
    interrupts = h.interrupts;
    answered = h.answered;
  }

  -- A read answers what the board answers.
  abbrev Answer : ℕ → ℕ → Type 0
  Answer addr v = (log : List Access) × (v ≡ u8 (env log addr))

  readb-Runs : (addr : ℕ) → Runs (readb addr) (Answer addr)
  unfolding readb
  readb-Runs addr = record {
    at = λ st h. (
      _,
      _,
      refl,
      logged _ h,
      (st.log, ap (λ (e : List Access → ℕ → ℕ). u8 (e st.log addr)) h.answered),
    );
  }

  pub Any-read : (addr : ℕ) → Runs (readb addr) Any
  unfolding readb
  Any-read addr = record { at = λ st h. (_, _, refl, logged _ h, tt) }

  pub write_mem-Runs : (v addr : ℕ) → Runs (write_mem v addr) Any
  unfolding write_mem
  write_mem-Runs v addr = record { at = λ st h. (tt, _, refl, logged _ h, tt) }

  put_in : (a : List ℕ) (i v : ℕ) → length a ≡ 4 → i < 4 → put a i v ≡ some (set a i v)
  put_in a i v len h = ground arith

  pub control_at-Runs : (i : ℕ) → i < 4 → Runs (control_at i) Any
  unfolding control_at
  control_at-Runs i small = record {
    at = λ st h. (
      get_or st.control i 0,
      st,
      rw (get_elem?-eq-get_or st.control i 0 (omega (arith, h.controls, small))),
      h,
      tt,
    );
  }

  pub set_control-Runs : (i v : ℕ) → i < 4 → Runs (set_control i v) Any
  unfolding set_control
  set_control-Runs i v small = record {
    at = λ st h. (
      tt,
      record st { control = set st.control i v },
      rw (put_in st.control i v h.controls small),
      record {
        controls = length-set st.control i v ∙ h.controls;
        bases = h.bases;
        models = h.models;
        interrupts = h.interrupts;
        answered = h.answered;
      },
      tt,
    );
  }

  pub set_channel-Runs : (i base irq : ℕ) → i < 4 → Runs (set_channel i base irq) Any
  unfolding set_channel
  set_channel-Runs i base irq small = record {
    at = λ st h. (
      tt,
      record st {
        base = set st.base i base;
        io_model = set st.io_model i 109;
        irqs = set st.irqs i irq;
      },
      rw (
        put_in st.base i base h.bases small,
        put_in st.io_model i 109 h.models small,
        put_in st.irqs i irq h.interrupts small,
      ),
      record {
        controls = h.controls;
        bases = length-set st.base i base ∙ h.bases;
        models = length-set st.io_model i 109 ∙ h.models;
        interrupts = length-set st.irqs i irq ∙ h.interrupts;
        answered = h.answered;
      },
      tt,
    );
  }

  -- The board always answers with this value under the mask.
  abbrev pub Is : ℕ → ℕ → ℕ → Type 0
  Is addr mask value = (log : List Access) → bit_and (u8 (env log addr)) mask ≡ value

  pub answers_right :
      (value mask addr : ℕ) → Is addr mask value → Runs (answers value mask addr) (λ b. b ≡ true)
  answers_right value mask addr right =
      >>=-Runs (readb addr) (λ v. pure (value == bit_and v mask)) (Answer addr) _ (readb-Runs addr)
        (λ v q. pure-Runs _ _ (
          ap (λ (n : ℕ). value == bit_and n mask) q.1
          ∙ ap (λ (n : ℕ). value == n) (right q.0)
          ∙ ==_refl value))

  pub and_also-Runs : (m n : P Bool) → Runs m Any → Runs n Any → Runs (and_also m n) Any
  and_also-Runs m n p q =
      >>=-Runs m (λ b. if b then n else pure false) Any Any p
        (λ b _. if-Runs b n (pure false) Any q (pure-Runs false Any tt))

  pub both_right :
      (m n : P Bool)
      → Runs m (λ b. b ≡ true)
      → Runs n (λ b. b ≡ true)
      → Runs (and_also m n) (λ b. b ≡ true)
  both_right m n p q =
      >>=-Runs m (λ b. if b then n else pure false) (λ b. b ≡ true) (λ b. b ≡ true) p
        (λ b right. rw right q)

  pub Any-answer : (value mask addr : ℕ) → Runs (answers value mask addr) Any
  Any-answer value mask addr =
      >>=-Runs (readb addr) (λ v. pure (value == bit_and v mask)) (Answer addr) Any
        (readb-Runs addr) (λ v q. pure-Runs _ Any tt)

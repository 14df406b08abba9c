-- ===== src/Chip/Requests.antt =====
-- The transmission requests that the controller has got, and the parts of the driver that make none.
use c4l.Common.{
  ℕ, ◌+◌, ◌≤◌, ◌≡◌, ◌≢◌, refl, ◌∙◌, ap, sym, subst, arith, Option, some, List, [], ◌∷◌, ◌++◌, Bool,
  true, false, ◌&&◌, ◌==◌, if◌then◌else◌, has,
}
use c4l.Machine.{Access, input, output, St, M, pure, ◌>>=◌, >>=-some, state}
use c4l.Register
use c4l.Chip.Reads.{reads, reads-input, reads-output}
use c4l.Chip.{can_in, can_out}

-- The accesses up to each transmission request to the controller at `base`, the oldest request first.
unfoldable pub requests : ℕ → List Access → List (List Access)
requests base [] = []
requests base (input p v ∷ log) = requests base log
requests base (output p v ∷ log) =
    let before = requests base log in
    if p == base + Register.cancmd && has v Register.can_transmission_request
    then before ++ (output p v ∷ log) ∷ []
    else before

-- The timers are the same.
abbrev pub SameTimers : St → St → Type 0
SameTimers st st' = (st'.idly ≡ st.idly) × (st'.dly ≡ st.dly)

-- What a part of the driver that speaks to the controller, but sends nothing, leaves as it is.
pub record Same (st st' : St) : Type 0 where
  pub env_same : st'.env ≡ st.env
  pub base_same : st'.vars.base ≡ st.vars.base
  pub rx_same : st'.dev.rxq ≡ st.dev.rxq
  pub tx_same : st'.dev.txq ≡ st.dev.txq
  pub progress_same : st'.dev.txinprogress ≡ st.dev.txinprogress
  pub work_same : st'.dev.delayedwork ≡ st.dev.delayedwork
  pub timers_same : SameTimers st st'
  pub rated : st.vars.baud ≢ 0 → st'.vars.baud ≢ 0
  pub no_request : requests st.vars.base st'.log ≡ requests st.vars.base st.log
  pub reads_more : (port : ℕ) → reads port st.log ≤ reads port st'.log

pub Same-refl : (st : St) → Same st st
Same-refl st = record {
  env_same = refl;
  base_same = refl;
  rx_same = refl;
  tx_same = refl;
  progress_same = refl;
  work_same = refl;
  timers_same = (refl, refl);
  rated = λ h. h;
  no_request = refl;
  reads_more = λ port. omega arith;
}

pub Same-trans : {a b c : St} → Same a b → Same b c → Same a c
Same-trans {a} {b} {c} p q = record {
  env_same = q.env_same ∙ p.env_same;
  base_same = q.base_same ∙ p.base_same;
  rx_same = q.rx_same ∙ p.rx_same;
  tx_same = q.tx_same ∙ p.tx_same;
  progress_same = q.progress_same ∙ p.progress_same;
  work_same = q.work_same ∙ p.work_same;
  timers_same = (q.timers_same.0 ∙ p.timers_same.0, q.timers_same.1 ∙ p.timers_same.1);
  rated = λ h. q.rated (p.rated h);
  no_request =
      ap (λ n. requests n c.log) (sym p.base_same)
      ∙ q.no_request
      ∙ ap (λ n. requests n b.log) p.base_same
      ∙ p.no_request;
  reads_more = λ port. omega (arith, p.reads_more port, q.reads_more port);
}

abbrev pub QuietAt : {A : Type 0} → M A → St → Type 0
QuietAt {A} m st = (a : A) × (st' : St) × (m st ≡ some (a, st')) × Same st st'

pub record Quiet {A : Type 0} (m : M A) : Type 0 where
  pub at : (st : St) → QuietAt m st

same_end :
    {A : Type 0} {a a' : A} {s s' : St}
    → ◌≡◌ {A = Option (A × St)} (some (a, s)) (some (a', s'))
    → s ≡ s'
same_end e = cc

-- What is known of a quiet run is known of each way to write it.
pub Quiet-end :
    {A : Type 0} {m : M A} {a : A} {st st' : St} → Quiet m → m st ≡ some (a, st') → Same st st'
Quiet-end {st = st} p run =
    let (a', s, run', same) = p.at st in
    subst (λ (x : St). Same st x) (same_end (sym run' ∙ run)) same

pub pure-Quiet : {A : Type 0} (a : A) → Quiet (pure a)
pure-Quiet a = record { at = λ st. (a, st, refl, Same-refl st) }

pub state-Quiet : Quiet state
state-Quiet = record { at = λ st. (st, st, refl, Same-refl st) }

pub >>=-Quiet :
    {A B : Type 0} (m : M A) (f : A → M B) → Quiet m → ((a : A) → Quiet (f a)) → Quiet (m >>= f)
>>=-Quiet {A} {B} m f p q = record { at = go }
  where
    go : (st : St) → QuietAt (m >>= f) st
    go st =
        let (a, st1, run1, same1) = p.at st in
        let (b, st2, run2, same2) = (q a).at st1 in
        (b, st2, >>=-some m f run1 ∙ run2, Same-trans same1 same2)

pub if-Quiet : {A : Type 0} (b : Bool) (m n : M A) → Quiet m → Quiet n → Quiet (if b then m else n)
if-Quiet true m n p q = p
if-Quiet false m n p q = q

only_accesses :
    {st : St} {log : List Access}
    → requests st.vars.base log ≡ requests st.vars.base st.log
    → ((port : ℕ) → reads port st.log ≤ reads port log)
    → Same st (record st { log = log })
only_accesses e more = record {
  env_same = refl;
  base_same = refl;
  rx_same = refl;
  tx_same = refl;
  progress_same = refl;
  work_same = refl;
  timers_same = (refl, refl);
  rated = λ h. h;
  no_request = e;
  reads_more = more;
}

pub can_in-Quiet : (reg : ℕ) → Quiet (can_in reg)
unfolding can_in requests
can_in-Quiet reg = record {
  at = λ st. (_, _, refl, only_accesses refl (λ port. reads-input port _ _ _));
}

-- An output to another register than the command register.
other_output :
    (base reg v : ℕ) (log : List Access)
    → (reg == Register.cancmd) ≡ false
    → requests base (output (base + reg) v ∷ log) ≡ requests base log
unfolding requests
other_output base reg v log h = ground arith

pub can_out-Quiet : (reg v : ℕ) → (reg == Register.cancmd) ≡ false → Quiet (can_out reg v)
unfolding can_out
can_out-Quiet reg v h = record {
  at = λ st. (
    _,
    _,
    refl,
    only_accesses (other_output st.vars.base reg _ st.log h) (λ port. reads-output port _ _ _),
  );
}

pub release-Quiet : Quiet (can_out Register.cancmd Register.can_release_receive_buffer)
unfolding can_out requests
release-Quiet = record {
  at = λ st. (_, _, refl, only_accesses (ground arith) (λ port. reads-output port _ _ _));
}

pub clear_overrun-Quiet : Quiet (can_out Register.cancmd Register.can_clear_overrun_status)
unfolding can_out requests
clear_overrun-Quiet = record {
  at = λ st. (_, _, refl, only_accesses (ground arith) (λ port. reads-output port _ _ _));
}

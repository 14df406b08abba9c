-- ===== src/Msgq/Threads/Order.antt =====
-- A writer and a reader in any order keep the messages in order, and do not lose a wake-up.
use native.Mathlib.Decide.{ℕ_discrete}
use c4l.Msgq.Slots.{contents-cons}
use c4l.Common.{
  ℕ, ◌≡◌, ◌≢◌, inl, inr, refl, ◌∙◌, ap, sym, Option, some, List, [], ◌∷◌, ◌++◌, map, bit_and,
  ◌>>=?◌,
}
use c4l.Message.{Msg}
use c4l.Msgq.{MsgQ}
use c4l.Msgq.Valid.{IsValid, contents}
use c4l.Msgq.Threads.{
  Writer, resting, allowed, filled, published, restarting, Reader, stopped, looking, sure, called,
  Threads, Side, write, read, turn, turns,
}
use c4l.Msgq.Threads.Pieces.{slots_apart}
use c4l.Msgq.Threads.Consistent.{Consistent, HasSlot, HasFirst, IsStopped, Signals}
use c4l.Msgq.Threads.Writing.{write_step-Consistent}
use c4l.Msgq.Threads.Reading.{read_step-Consistent}

-- A ring before the first call.
abbrev pub fresh : MsgQ → Threads
fresh q = record { q = q; writer = resting; reader = stopped; accepted = []; given = [] }

-- The writer is about to fill its slot, and the callback is about to get one.
abbrev pub IsFilling : Writer → Type 0
IsFilling resting = ⊥
IsFilling (allowed m) = Unit {0}
IsFilling (filled m) = ⊥
IsFilling published = ⊥
IsFilling restarting = ⊥

abbrev pub IsCalling : Reader → Type 0
IsCalling stopped = ⊥
IsCalling looking = ⊥
IsCalling sure = Unit {0}
IsCalling (called answer x) = ⊥

abbrev pub IsResting : Writer → Type 0
IsResting resting = Unit {0}
IsResting (allowed m) = ⊥
IsResting (filled m) = ⊥
IsResting published = ⊥
IsResting restarting = ⊥

module _ {B : Type 0} (key : Msg → B) (consume : Msg → ℕ × Msg)
    (keeps : (m : Msg) → key (consume m).1 ≡ key m) (k : ℕ) where
  fresh-Consistent :
      (q : MsgQ) → IsValid k q → contents k q ≡ [] → q.idle ≢ 0 → Consistent key k [] (fresh q)
  fresh-Consistent q v empty idle = record {
    valid = v;
    has_slot = tt;
    has_first = tt;
    signals = record { stops = λ h. (idle, inl empty); idles = λ h. tt; restarts = λ f. absurd f };
    in_order = ap (map key) (sym empty);
  }

  abbrev Reaches : List Side → Threads → Type 0
  Reaches xs t = (t' : Threads) × (turns consume xs t ≡ some t') × Consistent key k [] t'

  turns-Consistent : (xs : List Side) (t : Threads) → Consistent key k [] t → Reaches xs t
  unfolding turns turn
  turns-Consistent [] t c = (t, refl, c)
  turns-Consistent (write m ∷ xs) t c =
      turns-Consistent xs _ (write_step-Consistent key k [] t.writer m t refl c)
  turns-Consistent (read ∷ xs) t c =
      let (t1, run, c1) = read_step-Consistent key k [] consume keeps t.reader t refl c in
      let (t2, run2, c2) = turns-Consistent xs t1 c1 in
      (t2, ap (λ (o : Option Threads). o >>=? turns consume xs) run ∙ run2, c2)

  apart :
      (q : MsgQ) (w : Writer) (r : Reader)
      → IsValid k q
      → HasSlot k q w
      → HasFirst key (contents k q) r
      → IsFilling w
      → IsCalling r
      → bit_and q.produced q.mask ≢ bit_and q.consumed q.mask
  apart q resting r v slot first fills calls = absurd fills
  apart q (filled m) r v slot first fills calls = absurd fills
  apart q published r v slot first fills calls = absurd fills
  apart q restarting r v slot first fills calls = absurd fills
  apart q (allowed m) stopped v slot first fills calls = absurd calls
  apart q (allowed m) looking v slot first fills calls = absurd calls
  apart q (allowed m) (called answer x) v slot first fills calls = absurd calls
  apart q (allowed m) sure v room (x, rest, holds) fills calls =
      slots_apart v (contents-cons v holds).0 room

-- After any turns of one writer and one reader on an empty ring, which includes each way to cut their calls, there was no
-- fault and the ring is valid. What the writer counted is what the reader is done with, and then what is in the ring, in this
-- order, as far as `key` sees, which the callback does not change. The slot that the writer fills is not the callback's.
pub turns_in_order :
    {B : Type 0} (key : Msg → B) (consume : Msg → ℕ × Msg) (k : ℕ) (xs : List Side) (q : MsgQ)
    → ((m : Msg) → key (consume m).1 ≡ key m)
    → IsValid k q
    → contents k q ≡ []
    → q.idle ≢ 0
    → (t : Threads) × (turns consume xs (fresh q) ≡ some t)
      × IsValid k t.q
      × (map key t.accepted ≡ map key (t.given ++ contents k t.q))
      × (IsFilling t.writer
          → IsCalling t.reader
          → bit_and t.q.produced t.q.mask ≢ bit_and t.q.consumed t.q.mask)
turns_in_order key consume k xs q keeps v empty idle =
    let (t, run, c) =
      turns-Consistent key consume keeps k xs (fresh q)
        (fresh-Consistent key consume keeps k q v empty idle) in
    (
      t,
      run,
      c.valid,
      c.in_order,
      apart key consume keeps k t.q t.writer t.reader c.valid c.has_slot c.has_first,
    )

awake :
    {idle : ℕ} {l : List Msg} (w : Writer) (r : Reader)
    → IsResting w
    → l ≢ []
    → Signals idle l w r
    → (¬ IsStopped r) × (idle ≡ 0)
awake {idle} {l} w r rests some_in s = (going w rests s, is_zero (λ i. going w rests s (s.idles i)))
  where
    going : (w : Writer) → IsResting w → Signals idle l w r → ¬ IsStopped r
    going resting h s stop = elim (s.stops stop).1 [
      | inl empty ↦ absurd (some_in empty)
      | inr f ↦ absurd f
    ]
    going (allowed m) h s stop = absurd h
    going (filled m) h s stop = absurd h
    going published h s stop = absurd h
    going restarting h s stop = absurd h

    is_zero : ¬ (idle ≢ 0) → idle ≡ 0
    is_zero h = elim (ℕ_discrete idle 0) [ yes e ↦ e | no ne ↦ absurd (h ne) ]

-- After any turns of one writer and one reader on an empty ring, if the writer is between two messages and the ring is not
-- empty, then the reader has not stopped, and `idle` is 0.
pub turns_wake :
    (consume : Msg → ℕ × Msg) (k : ℕ) (xs : List Side) (q : MsgQ)
    → IsValid k q
    → contents k q ≡ []
    → q.idle ≢ 0
    → (t : Threads) × (turns consume xs (fresh q) ≡ some t)
      × (IsResting t.writer → contents k t.q ≢ [] → (¬ IsStopped t.reader) × (t.q.idle ≡ 0))
turns_wake consume k xs q v empty idle =
    let (t, run, c) =
      turns-Consistent (λ m. tt) consume (λ m. refl) k xs (fresh q)
        (fresh-Consistent (λ m. tt) consume (λ m. refl) k q v empty idle) in
    (t, run, λ rests some_in. awake t.writer t.reader rests some_in c.signals)

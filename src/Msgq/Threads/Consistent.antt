-- ===== src/Msgq/Threads/Consistent.antt =====
-- What holds at each moment while a writer and a reader take turns on a ring.
use c4l.Common.{ℕ, ◌^◌, ◌<◌, ◌≡◌, ◌≢◌, ◌⊎◌, inl, inr, sym, subst, List, [], ◌∷◌, ◌++◌, map}
use c4l.Message.{Msg}
use c4l.Msgq.{MsgQ, qlen}
use c4l.Msgq.Valid.{IsValid, contents}
use c4l.Msgq.Slots.{free_slot}
use c4l.Msgq.Threads.{
  Writer, resting, allowed, filled, published, restarting, Reader, stopped, looking, sure, called,
  Threads,
}

-- The writer has a free slot, from its test on until its message is counted.
abbrev pub HasSlot : ℕ → MsgQ → Writer → Type 0
HasSlot k q resting = Unit {0}
HasSlot k q (allowed m) = qlen q < 2 ^ k
HasSlot k q (filled m) = (qlen q < 2 ^ k) × (free_slot q ≡ m)
HasSlot k q published = Unit {0}
HasSlot k q restarting = Unit {0}

-- The writer is yet to look at `idle`, or to start the reader.
abbrev pub WillStart : Writer → Type 0
WillStart resting = ⊥
WillStart (allowed m) = ⊥
WillStart (filled m) = ⊥
WillStart published = Unit {0}
WillStart restarting = Unit {0}

abbrev pub IsRestarting : Writer → Type 0
IsRestarting resting = ⊥
IsRestarting (allowed m) = ⊥
IsRestarting (filled m) = ⊥
IsRestarting published = ⊥
IsRestarting restarting = Unit {0}

abbrev pub IsStopped : Reader → Type 0
IsStopped stopped = Unit {0}
IsStopped looking = ⊥
IsStopped sure = ⊥
IsStopped (called answer x) = ⊥

-- `idle` is set just while the reader has stopped; then the ring is empty, or the writer will start the reader.
pub record Signals (idle : ℕ) (l : List Msg) (w : Writer) (r : Reader) : Type 0 where
  pub stops : IsStopped r → (idle ≢ 0) × ((l ≡ []) ⊎ WillStart w)
  pub idles : idle ≢ 0 → IsStopped r
  pub restarts : IsRestarting w → idle ≢ 0

module _ {B : Type 0} (key : Msg → B) where
  -- The reader has a message, from its test on until it is done with it.
  abbrev pub HasFirst : List Msg → Reader → Type 0
  HasFirst l stopped = Unit {0}
  HasFirst l looking = Unit {0}
  HasFirst l sure = (x : Msg) × (rest : List Msg) × (l ≡ x ∷ rest)
  HasFirst l (called answer x) = (m : Msg) × (rest : List Msg) × (l ≡ m ∷ rest) × (key m ≡ key x)

  -- `before` is what the ring held at the start.
  pub record Consistent (k : ℕ) (before : List Msg) (t : Threads) : Type 0 where
    pub valid : IsValid k t.q
    pub has_slot : HasSlot k t.q t.writer
    pub has_first : HasFirst (contents k t.q) t.reader
    pub signals : Signals t.q.idle (contents k t.q) t.writer t.reader
    pub in_order : map key (before ++ t.accepted) ≡ map key (t.given ++ contents k t.q)

-- Changes that matter to one side only.
pub same_list :
    {idle : ℕ} {l l' : List Msg} {w : Writer} {r : Reader}
    → l' ≡ l
    → Signals idle l w r
    → Signals idle l' w r
same_list {idle} {l} {l'} {w} {r} e s = subst (λ l. Signals idle l w r) (sym e) s

pub unstarted :
    {idle : ℕ} {l : List Msg} {w w' : Writer} {r : Reader}
    → ¬ WillStart w
    → ¬ IsRestarting w'
    → Signals idle l w r
    → Signals idle l w' r
unstarted calm other s = record {
  stops = λ h. ((s.stops h).0, elim (s.stops h).1 [ inl e ↦ inl e | inr f ↦ absurd (calm f) ]);
  idles = s.idles;
  restarts = λ f. absurd (other f);
}

pub running :
    {idle : ℕ} {l l' : List Msg} {w : Writer} {r r' : Reader}
    → ¬ IsStopped r
    → ¬ IsStopped r'
    → Signals idle l w r
    → Signals idle l' w r'
running busy busy' s = record {
  stops = λ h. absurd (busy' h);
  idles = λ i. absurd (busy (s.idles i));
  restarts = s.restarts;
}

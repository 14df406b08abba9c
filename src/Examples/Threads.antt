-- ===== src/Examples/Threads.antt =====
-- Turns of a writer and a reader on a ring, and of two readers.
use c4l.Common.{
  ℕ, ◌≡◌, ◌≢◌, refl, arith, Option, none, some, List, [], ◌∷◌, ◌++◌, map, bit_and, ◌>>=?◌,
}
use c4l.Message.{Msg}
use c4l.Msgq.Valid.{IsValid, contents}
use c4l.Msgq.Threads.{
  Reader, Threads, Side, write, read, looking, turns, turn, read_step, write_step, call_back,
}
use c4l.Msgq.Threads.Consistent.{IsStopped}
use c4l.Msgq.Threads.Order.{fresh, IsFilling, IsCalling, IsResting, turns_in_order, turns_wake}
use c4l.Msgq.Threads.Alone.{between}
use c4l.Examples.{empty_queue, empty_tx-IsValid, tx_mem, hello, later, one_queued}

-- A callback that takes each message.
abbrev take_it : Msg → ℕ × Msg
take_it m = (1, m)

-- A message is written and starts the reader, which has it while the next one comes.
abbrev mixed : List Side
mixed =
    write hello
    ∷ write hello
    ∷ write hello
    ∷ write hello
    ∷ write hello
    ∷ read
    ∷ write later
    ∷ read
    ∷ write later
    ∷ read
    ∷ write later
    ∷ read
    ∷ []

given_of : Option Threads → List Msg
given_of none = []
given_of (some t) = t.given

mixed_gives : given_of (turns take_it mixed (fresh (empty_queue 128 tx_mem))) ≡ hello ∷ []
unfolding given_of turns turn write_step read_step call_back
mixed_gives = refl

turns_in_order_example :
    (t : Threads) × (turns take_it mixed (fresh (empty_queue 128 tx_mem)) ≡ some t)
    × IsValid 7 t.q
    × (map (λ (m : Msg). m) t.accepted ≡ map (λ (m : Msg). m) (t.given ++ contents 7 t.q))
    × (IsFilling t.writer
        → IsCalling t.reader
        → bit_and t.q.produced t.q.mask ≢ bit_and t.q.consumed t.q.mask)
turns_in_order_example =
    turns_in_order (λ (m : Msg). m) take_it 7 mixed (empty_queue 128 tx_mem) (λ m. refl)
      empty_tx-IsValid refl (λ e. omega (arith, e))

turns_wake_example :
    (t : Threads) × (turns take_it mixed (fresh (empty_queue 128 tx_mem)) ≡ some t)
    × (IsResting t.writer → contents 7 t.q ≢ [] → (¬ IsStopped t.reader) × (t.q.idle ≡ 0))
turns_wake_example =
    turns_wake take_it 7 mixed (empty_queue 128 tx_mem) empty_tx-IsValid refl
      (λ e. omega (arith, e))

-- With a second reader between the callback of the first and its count, `hello` is read by both.
again : Threads → Option (Reader × Threads)
unfolding turns
again t = turns take_it (read ∷ read ∷ read ∷ []) (record t { reader = looking }) >>=? λ t'.
    some (t.reader, t')

two_readers : Option Threads
unfolding turns again
two_readers = turns take_it (read ∷ read ∷ []) (between (one_queued hello) [] [] looking) >>=? λ t.
    again t >>=? λ (r, t'). turns take_it (read ∷ []) (record t' { reader = r })

two_readers_lem : given_of two_readers ≡ hello ∷ hello ∷ []
unfolding given_of two_readers again turns turn read_step call_back
two_readers_lem = refl

-- ===== src/Session/Within.antt =====
-- write.c, can_write: the write of a user, with other calls of the driver between its steps. The access that
-- qproduce makes to the queue, and the one of qconsume, are one step each.
pub mod Steps
pub mod Alone
use c4l.Common.{ℕ, zero, suc, ◌+◌, ◌==◌, if◌then◌else◌, List, [], ◌∷◌, some, map}
use c4l.Message.{Msg}
use c4l.Machine.{Access, St, M, pure, ◌>>=◌}
use c4l.Isr.{consume_tx}
use c4l.File.{produce_tx}
use c4l.Session.{Call, session}

-- The calls between the steps of a write, for one of its messages: after qproduce, after the test of `idle`, after `idle`
-- has been cleared, and before the next message.
pub record Gaps : Type 0 where
  pub after_produce : List Call
  pub after_test : List Call
  pub after_mark : List Call
  pub at_end : List Call

abbrev pub mark_busy : M (Unit {0})
mark_busy st = some (tt, record st { dev = record st.dev { txq = record st.dev.txq { idle = 0 } } })

module _ (clock : List Access → ℕ × ℕ) where
  -- The steps that start a queue that was idle.
  unfoldable pub wake_within : Gaps → M (Unit {0})
  unfolding session consume_tx
  wake_within g = session clock g.after_test >>= λ _.
      mark_busy >>= λ _. session clock g.after_mark >>= λ _. consume_tx >>= λ _. pure tt

  unfoldable pub start_within : Gaps → M (Unit {0})
  unfolding wake_within
  start_within g st = if st.dev.txq.idle == 0 then some (tt, st) else wake_within g st

  unfoldable pub more_within : Gaps → M ℕ → ℕ → M ℕ
  unfolding start_within
  more_within g rest zero = pure 0
  more_within g rest (suc _) = session clock g.after_produce >>= λ _.
      start_within g >>= λ _. session clock g.at_end >>= λ _. rest >>= λ written. pure (written + 1)

  -- The loop of can_write.
  unfoldable pub write_within : List (Msg × Gaps) → M ℕ
  unfolding more_within produce_tx
  write_within [] = pure 0
  write_within ((m, g) ∷ ms) = produce_tx m >>= more_within g (write_within ms)

-- The user's buffer.
abbrev pub messages : List (Msg × Gaps) → List Msg
messages l = map (λ p. p.0) l

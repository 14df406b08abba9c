-- ===== src/Msgq/Fifo.antt =====
-- What a ring promises: a first-in first-out queue of at most `size` messages.
use c4l.Common.{ℕ, List, [], ◌∷◌, ◌++◌, length, ltb, if◌then◌else◌, Option, none, some}
use c4l.Message.{Msg}

-- A client's calls: put a message in, take one out.
pub data Op : Type 0 where
  put : Msg → Op
  get : Op

-- The result of a call is 1 if it was done, and what came out.
abbrev pub Reply : Type 0
Reply = ℕ × Option Msg

unfoldable pub push : ℕ → List Msg → Msg → ℕ × List Msg
push size l m = if ltb (length l) size then (1, l ++ m ∷ []) else (0, l)

unfoldable pub run : ℕ → List Msg → List Op → List Reply
run size l [] = []
run size l (put m ∷ ops) = let (r, l') = push size l m in (r, none) ∷ run size l' ops
run size [] (get ∷ ops) = (0, none) ∷ run size [] ops
run size (m ∷ l) (get ∷ ops) = (1, some m) ∷ run size l ops

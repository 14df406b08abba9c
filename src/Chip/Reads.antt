-- ===== src/Chip/Reads.antt =====
-- How often a port was read, and accesses that only read.
use c4l.Common.{ℕ, suc, ◌≤◌, arith, List, [], ◌∷◌, ◌==◌, if◌then◌else◌}
use c4l.Machine.{Access, input, output}

-- The number of reads of a port so far.
unfoldable pub reads : ℕ → List Access → ℕ
reads port [] = 0
reads port (input p v ∷ log) = let n = reads port log in if p == port then suc n else n
reads port (output p v ∷ log) = reads port log

pub reads-input : (port p v : ℕ) (log : List Access) → reads port log ≤ reads port (input p v ∷ log)
unfolding reads
reads-input port p v log = ground arith

pub reads-output :
    (port p v : ℕ) (log : List Access) → reads port log ≤ reads port (output p v ∷ log)
unfolding reads
reads-output port p v log = omega arith

-- After the accesses `a` there were only reads.
pub data OnlyReads (a : List Access) : List Access → Type 0 where
  none_since : OnlyReads a a
  one_since : (port v : ℕ) (log : List Access) → OnlyReads a log → OnlyReads a (input port v ∷ log)

pub OnlyReads-trans : (a b c : List Access) → OnlyReads a b → OnlyReads b c → OnlyReads a c
OnlyReads-trans a b c p none_since = p
OnlyReads-trans a b c p (one_since port v log q) =
    one_since port v log (OnlyReads-trans a b log p q)

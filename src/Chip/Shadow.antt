-- ===== src/Chip/Shadow.antt =====
-- What the controller's registers hold, as far as the accesses tell: the byte written last.
use c4l.Common.{ℕ, ◌+◌, ◌*◌, ◌^◌, Option, none, some, List, [], ◌∷◌, ◌==◌, if◌then◌else◌, ◌>>=?◌}
use c4l.Machine.{Access, input, output}

abbrev pub written : List Access → ℕ → Option ℕ
written [] port = none
written (input q v ∷ log) port = written log port
written (output q v ∷ log) port = if q == port then some v else written log port

-- Four registers in a row as one number, the first the most significant.
abbrev pub word_at : List Access → ℕ → Option ℕ
word_at log port = written log port >>=? λ a. written log (port + 1) >>=? λ b.
    written log (port + 2) >>=? λ c.
    written log (port + 3) >>=? λ d. some (a * 2 ^ 24 + b * 2 ^ 16 + c * 2 ^ 8 + d)

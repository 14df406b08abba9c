-- ===== src/Frame/Bytes.antt =====
-- The loops over the data bytes of a frame.
use c4l.Common.{
  ℕ, zero, suc, ◌+◌, ◌≤◌, ◌<◌, ◌≡◌, ◌⊎◌, refl, ◌∙◌, arith, some, List, ◌∷◌, get_or, set, length,
  length-set, get_or-set_self, get_or-set_ne, u8,
}
use c4l.Machine.{St, Access, output, input}
use c4l.Chip.{can_in, can_out}
use c4l.Chip.Reads.{OnlyReads, none_since, one_since, OnlyReads-trans}
use c4l.Chip.Shadow.{written}
use c4l.Frame.{write_bytes, read_bytes}

-- The bytes `i` to `i + left - 1` are in the registers from `reg + i` on, and no other is written.
pub write_bytes_lem :
    (reg : ℕ) (bytes : List ℕ) (i left : ℕ) (st : St)
    → (st' : St) × (write_bytes reg bytes i left st ≡ some (tt, st'))
      × ((j : ℕ)
          → i ≤ j
          → j < i + left
          → written st'.log (st.vars.base + (reg + j)) ≡ some (u8 (get_or bytes j 0)))
      × ((r : ℕ)
          → (r < reg + i) ⊎ (reg + i + left ≤ r)
          → written st'.log (st.vars.base + r) ≡ written st.log (st.vars.base + r))
      × (st'.vars ≡ st.vars)
      × (st'.dev ≡ st.dev)
unfolding write_bytes can_out
write_bytes_lem reg bytes i zero st =
    (st, refl, λ j a b. absurd (omega arith), λ r h. refl, refl, refl)
write_bytes_lem reg bytes i (suc left) st =
    let port = st.vars.base + (reg + i) in
    let st1 : St = record st { log = output port (u8 (get_or bytes i 0)) ∷ st.log } in
    let (st', e, inside, outside, ev, ed) = write_bytes_lem reg bytes (i + 1) left st1 in
    (
      st',
      e,
      λ j a b. ground (arith, inside j, outside (reg + j)),
      λ r h. ground (arith, outside r),
      ev,
      ed,
    )

-- If the registers from `reg + i` on answer the bytes `source`, those are read into `bytes`, whose
-- other elements stay.
pub read_bytes_lem :
    (source : ℕ → ℕ) (reg : ℕ) (bytes : List ℕ) (i left : ℕ) (st : St)
    → i + left ≤ length bytes
    → ((log : List Access) (j : ℕ)
        → OnlyReads st.log log
        → i ≤ j
        → j < i + left
        → u8 (st.env log (st.vars.base + (reg + j))) ≡ source j)
    → (st' : St) × (out : List ℕ) × (read_bytes reg bytes i left st ≡ some (out, st'))
      × (length out ≡ length bytes)
      × ((j : ℕ) → i ≤ j → j < i + left → get_or out j 0 ≡ source j)
      × ((j : ℕ) → (j < i) ⊎ (i + left ≤ j) → get_or out j 0 ≡ get_or bytes j 0)
      × (st'.vars ≡ st.vars)
      × (st'.dev ≡ st.dev)
unfolding read_bytes can_in
read_bytes_lem source reg bytes i zero st fits answers =
    (st, bytes, refl, refl, λ j a b. absurd (omega arith), λ j h. refl, refl, refl)
read_bytes_lem source reg bytes i (suc left) st fits answers =
    let port = st.vars.base + (reg + i) in
    let b = u8 (st.env st.log port) in
    let st1 : St = record st { log = input port b ∷ st.log } in
    let first : OnlyReads st.log st1.log = one_since port b st.log none_since in
    let (st', out, e, len, inside, outside, ev, ed) =
      read_bytes_lem source reg (set bytes i b) (i + 1) left st1
        (omega (arith, length-set bytes i b))
        (λ log j since p q.
          answers log j (OnlyReads-trans st.log st1.log log first since) (omega arith)
            (omega arith)) in
    (
      st',
      out,
      e,
      len ∙ length-set bytes i b,
      λ j p q.
          ground
            (arith, inside j, outside j, answers st.log i none_since, get_or-set_self bytes i b 0),
      λ j h. ground (arith, outside j, get_or-set_ne bytes {i = i} {j = j} b 0),
      ev,
      ed,
    )

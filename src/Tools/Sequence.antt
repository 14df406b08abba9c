-- ===== src/Tools/Sequence.antt =====
-- can_send.c: the messages of test 10, nine in a sequence, and what becomes of them for the next one.
use c4l.Common.{
  ℕ, ◌+◌, ◌-◌, ◌^◌, ◌%◌, List, [], ◌∷◌, map, Bool, ◌&&◌, ◌||◌, not, ltb, add32, if◌then◌else◌,
  bit_or, replicate,
}
use c4l.Message.{Msg, msg_ext}
use c4l.Tools.Bytes.{le_value, le_bytes}

-- `SEQN`.
abbrev pub seqn : ℕ
seqn = 9

-- One element of the array `tm` of test10, for its index.
abbrev pub first_msg : ℕ → Msg
first_msg i = record {
  flags = 0;
  cob = 0;
  id = i;
  tv_sec = 0;
  tv_usec = 0;
  length = i;
  bytes = replicate 8 0;
}

abbrev pub with_ext : Msg → Msg
with_ext m = record m { flags = bit_or m.flags msg_ext }

abbrev pub nine : List ℕ
nine = 0 ∷ 1 ∷ 2 ∷ 3 ∷ 4 ∷ 5 ∷ 6 ∷ 7 ∷ 8 ∷ []

-- The array `tm` before the first write.
unfoldable pub first_seq : Bool → List Msg
first_seq extd = if extd then map with_ext (map first_msg nine) else map first_msg nine

-- Whether the ids start again, by the id of the first message.
abbrev pub ids_wrap : Bool → ℕ → Bool
ids_wrap extd id = (extd && ltb (536870906 - seqn) id) || (not extd && ltb (2042 - seqn) id)

-- `(m + i)->id = i`, from the index `i` on.
unfoldable pub reset_ids : ℕ → List Msg → List Msg
reset_ids i [] = []
reset_ids i (m ∷ ms) = record m { id = i } ∷ reset_ids (i + 1) ms

abbrev pub advance_id : Msg → Msg
advance_id m = record m { id = add32 m.id seqn }

-- `*(unsigned long long *)p += 1`.
abbrev pub count_data : Msg → Msg
count_data m = record m { bytes = le_bytes 8 ((le_value m.bytes + 1) % 2 ^ 64) }

abbrev pub next_ids : Bool → List Msg → List Msg
next_ids extd [] = []
next_ids extd (m ∷ ms) =
    if ids_wrap extd m.id then reset_ids 0 (m ∷ ms) else map advance_id (m ∷ ms)

-- update_seq.
unfoldable pub update_seq : Bool → List Msg → List Msg
unfolding reset_ids le_value le_bytes
update_seq extd ms = map count_data (next_ids extd ms)

-- ===== src/Frame/Wire.antt =====
-- A frame across the bus: what one controller's driver sends, another's receives.
use c4l.Common.{
  ℕ, ◌+◌, ◌*◌, ◌/◌, ◌^◌, ◌≤◌, ◌<◌, ◌≡◌, refl, ◌∙◌, ap, subst, sym, ap₂, arith, Option, some, ◌==◌,
  ==_iff, if◌then◌else◌, get_or, bit_and, bit_or, has, u8, u32, Bool, true, false, ◌&&◌, not,
  length, all_below, all_below_sound, bit_and_mask,
}
use c4l.Message.{Msg, msg_ext, msg_rtr}
use c4l.Machine.{St, Vars, ◌>>◌, pure, >>=-some}
use c4l.Register
use c4l.Chip.Shadow.{written}
use c4l.Frame.{
  send_now, Msginf, transmit, sendcanmsg, clamp_length, readcanmsg, byte_count, with_flag,
}
use c4l.Frame.Sent.{Holds, transmit_lem}
use c4l.Frame.Received.{Answers, IsRead, id_of, data_register, readcanmsg_lem, same_message}

-- The frame information byte of a message in the format `e`, remote or not, with `n` bytes.
abbrev info : Bool → Bool → ℕ → ℕ
info e rtr n = u8 ((if e then 0x80 else 0) + (if rtr then bit_or (u8 n) Register.can_rtr else u8 n))

same_bool : Bool → Bool → Bool
same_bool true b = b
same_bool false b = not b

same_bool_lem : (a b : Bool) → same_bool a b ≡ true → a ≡ b
unfolding same_bool
same_bool_lem true b h = sym h
same_bool_lem false true h = h
same_bool_lem false false h = refl

three_true : (a b c : Bool) → (a && b && c) ≡ true → (a ≡ true) × (b ≡ true) × (c ≡ true)
three_true a b c h = ground arith

info_test : Bool → Bool → ℕ → Bool
info_test e rtr n =
    same_bool (has (info e rtr n) Register.can_eff) e
    && same_bool (has (info e rtr n) Register.can_rtr) rtr
    && bit_and (info e rtr n) 0x0f == n

info_table : (e rtr : Bool) → all_below 9 (info_test e rtr) ≡ true
unfolding all_below info_test same_bool
info_table true true = refl
info_table true false = refl
info_table false true = refl
info_table false false = refl

-- The format, the remote bit and the length can be read off the frame information.
info_fields :
    (e rtr : Bool) (n : ℕ)
    → n ≤ 8
    → (has (info e rtr n) Register.can_eff ≡ e)
      × (has (info e rtr n) Register.can_rtr ≡ rtr)
      × (bit_and (info e rtr n) 0x0f ≡ n)
unfolding info_test
info_fields e rtr n h =
    split (all_below_sound 9 (info_test e rtr) n (info_table e rtr) (omega arith))
  where
    split :
        info_test e rtr n ≡ true
        → (has (info e rtr n) Register.can_eff ≡ e)
          × (has (info e rtr n) Register.can_rtr ≡ rtr)
          × (bit_and (info e rtr n) 0x0f ≡ n)
    split t =
        let (p, q, r) = three_true _ _ _ t in
        (same_bool_lem _ _ p, same_bool_lem _ _ q, (==_iff _ _).0 r)

high_table : all_below 256 (λ x. bit_and x 0xe0 == x / 32 * 32) ≡ true
unfolding all_below
high_table = refl

high_bits : (x : ℕ) → x < 256 → bit_and x 0xe0 ≡ x / 32 * 32
high_bits x h = (==_iff _ _).0 (all_below_sound 256 _ x high_table h)

-- The identifiers that fit a frame: 29 bits in the extended format, 11 in the standard one.
abbrev pub id_limit : Bool → ℕ
id_limit e = if e then 2 ^ 29 else 2 ^ 11

-- What the registers of a frame answer is what the sender's registers hold.
abbrev pub Carried : St → (ℕ → ℕ) → Type 0
Carried sent a =
    (r v : ℕ)
    → Register.frameinfo ≤ r
    → r ≤ Register.frameinfo + 12
    → written sent.log (sent.vars.base + r) ≡ some v
    → a r ≡ v

-- The facts that a frame of `m` in the format `e` gives on the receiver's side.
abbrev Reads : Bool → Msg → (ℕ → ℕ) → Type 0
Reads e m a =
    (a Register.frameinfo ≡ info e (has m.flags msg_rtr) m.length)
    × (id_of e a ≡ m.id)
    × ((j : ℕ) → j < m.length → a (data_register e + j) ≡ u8 (get_or m.bytes j 0))

ext_id :
    (id : ℕ)
    → id < 2 ^ 29
    → u32 (
        u8 (id / 2 ^ 21) * 2 ^ 21
        + u8 (id / 2 ^ 13) * 2 ^ 13
        + u8 (id / 2 ^ 5) * 2 ^ 5
        + u8 (bit_and (u8 (id * 2 ^ 3)) 0xff) / 2 ^ 3)
      ≡ id
ext_id id h = rw (bit_and_mask 8 (u8 (id * 2 ^ 3))) (omega arith)

std_id :
    (id : ℕ)
    → id < 2 ^ 11
    → u32 (u8 (id / 2 ^ 3) * 2 ^ 3 + u8 (bit_and (u8 (id * 2 ^ 5)) 0xe0) / 2 ^ 5) ≡ id
std_id id h = rw (high_bits (u8 (id * 2 ^ 5)) (omega arith)) (omega arith)

byte_count_small : (n : ℕ) → n ≤ 8 → byte_count n ≡ n
byte_count_small n h = ground arith

Holds-Reads :
    (e : Bool) (m : Msg) (a : ℕ → ℕ) (hold : ℕ → Option ℕ)
    → m.length ≤ 8
    → m.id < id_limit e
    → ((r v : ℕ) → Register.frameinfo ≤ r → r ≤ Register.frameinfo + 12 → hold r ≡ some v → a r ≡ v)
    → Holds e m hold
    → Reads e m a
Holds-Reads true m a hold short small same (i, c1, c2, c3, c4, bytes) = (
  same _ _ (omega arith) (omega arith) i,
  rw
      (
        same _ _ (omega arith) (omega arith) c1,
        same _ _ (omega arith) (omega arith) c2,
        same _ _ (omega arith) (omega arith) c3,
        same _ _ (omega arith) (omega arith) c4,
      )
      (ext_id m.id small),
  λ j h. same _ _ (omega arith) (omega arith) (bytes j (rw (byte_count_small m.length short) h)),
)
Holds-Reads false m a hold short small same (i, c1, c2, bytes) = (
  same _ _ (omega arith) (omega arith) i,
  rw (same _ _ (omega arith) (omega arith) c1, same _ _ (omega arith) (omega arith) c2)
      (std_id m.id small),
  λ j h. same _ _ (omega arith) (omega arith) (bytes j (rw (byte_count_small m.length short) h)),
)

-- A received message `m'` is the sent message `m`, as `readcanmsg` reports it: identifier, length, format
-- and remote flag, and the data bytes; the rest of the slot's bytes stay.
pub record IsSame (m : Msg) (inf : Msginf) (slot m' : Msg) : Type 0 where
  pub id_same : m'.id ≡ m.id
  pub length_same : m'.length ≡ m.length
  pub flags_same :
      m'.flags ≡ with_flag m.flags msg_ext msg_ext (with_flag m.flags msg_rtr msg_rtr inf.flags)
  pub stamped : (m'.tv_sec ≡ inf.tv_sec) × (m'.tv_usec ≡ inf.tv_usec)
  pub bytes_same : (j : ℕ) → j < m.length → get_or m'.bytes j 0 ≡ get_or m.bytes j 0
  pub bytes_kept : (j : ℕ) → m.length ≤ j → get_or m'.bytes j 0 ≡ get_or slot.bytes j 0

IsRead-IsSame :
    (m m' slot : Msg) (inf : Msginf) (a : ℕ → ℕ)
    → m.length ≤ 8
    → ((j : ℕ) → get_or m.bytes j 0 < 256)
    → Reads (has m.flags msg_ext) m a
    → IsRead a inf slot m'
    → IsSame m inf slot m'
IsRead-IsSame m m' slot inf a short octets (i, id, bytes) r =
    let (f_ext, f_rtr, f_len) =
      info_fields (has m.flags msg_ext) (has m.flags msg_rtr) m.length short in
    let ext : has (a Register.frameinfo) Register.can_eff ≡ has m.flags msg_ext =
      ap (λ t. has t Register.can_eff) i ∙ f_ext in
    let rtr : has (a Register.frameinfo) Register.can_rtr ≡ has m.flags msg_rtr =
      ap (λ t. has t Register.can_rtr) i ∙ f_rtr in
    let len : m'.length ≡ m.length = r.length_is ∙ ap (λ t. bit_and t 0x0f) i ∙ f_len in
    record {
      id_same = r.id_is ∙ ap (λ e. id_of e a) ext ∙ id;
      length_same = len;
      flags_same =
          r.flags_is
          ∙ ap₂
              (λ e t.
                if e
                then bit_or (if t then bit_or inf.flags msg_rtr else inf.flags) msg_ext
                else (if t then bit_or inf.flags msg_rtr else inf.flags))
              ext rtr;
      stamped = (r.sec_is, r.usec_is);
      bytes_same = λ j h.
          r.read_part j (omega (arith, len))
          ∙ ap (λ e. a (data_register e + j)) ext
          ∙ bytes j h
          ∙ omega (arith, octets j);
      bytes_kept = λ j h. r.kept_part j (omega (arith, len));
    }

clamp_length_small : (n : ℕ) → n ≤ 8 → clamp_length n ≡ n
unfolding clamp_length
clamp_length_small n h = ground arith

sendcanmsg-now :
    (m : Msg) (st : St)
    → m.length ≤ 8
    → m.tv_usec ≡ 0
    → sendcanmsg m st ≡ (transmit m >> pure (1, m)) st
unfolding sendcanmsg send_now
sendcanmsg-now m st short now = rw (clamp_length_small m.length short, now)

-- A message without a delay whose identifier fits its format, with at most 8 bytes, is received by
-- `readcanmsg` as `sendcanmsg` sent it, by any controller whose frame registers answer what the
-- sender's hold.
pub readcanmsg-sendcanmsg :
    (m slot : Msg) (inf : Msginf) (st sent rcv : St) (a : ℕ → ℕ)
    → m.length ≤ 8
    → m.tv_usec ≡ 0
    → m.id < id_limit (has m.flags msg_ext)
    → ((j : ℕ) → get_or m.bytes j 0 < 256)
    → length slot.bytes ≡ 8
    → sendcanmsg m st ≡ some ((1, m), sent)
    → Carried sent a
    → Answers a rcv
    → (m' : Msg) × (rcv' : St) × (readcanmsg inf slot rcv ≡ some (m', rcv')) × IsSame m inf slot m'
readcanmsg-sendcanmsg m slot inf st sent rcv a short now small octets eight run carried answers =
    let (st', e, holds, cmd, vars_same, dev_same) = transmit_lem m st in
    let same : sent ≡ st' =
      cc (sym run ∙ sendcanmsg-now m st short now ∙ >>=-some (transmit m) (λ _. pure (1, m)) e) in
    let reads =
      Holds-Reads (has m.flags msg_ext) m a _ short small
        (λ r v lo hi h. carried r v lo hi (
          subst (λ s. written s.log (s.vars.base + r) ≡ some v) (sym same)
            (subst (λ (v' : Vars). written st'.log (v'.base + r) ≡ some v) (sym vars_same) h)))
        holds in
    let (m', rcv', e', is_read, len, rel, vs, ds) = readcanmsg_lem a inf slot rcv answers eight in
    (m', rcv', e', IsRead-IsSame m m' slot inf a short octets reads is_read)

-- What a message that was read has in common with the one of the frame.
pub Holds-IsSame :
    (m m' slot : Msg) (inf : Msginf) (rcv rcv' : St) (a : ℕ → ℕ) (hold : ℕ → Option ℕ)
    → m.length ≤ 8
    → m.id < id_limit (has m.flags msg_ext)
    → ((j : ℕ) → get_or m.bytes j 0 < 256)
    → length slot.bytes ≡ 8
    → Holds (has m.flags msg_ext) m hold
    → ((r v : ℕ) → Register.frameinfo ≤ r → r ≤ Register.frameinfo + 12 → hold r ≡ some v → a r ≡ v)
    → Answers a rcv
    → readcanmsg inf slot rcv ≡ some (m', rcv')
    → IsSame m inf slot m'
Holds-IsSame m m' slot inf rcv rcv' a hold short small octets eight holds carried answers run =
    let reads = Holds-Reads (has m.flags msg_ext) m a hold short small carried holds in
    let (m0, rcv0, e, is_read, len, rel, vs, ds) = readcanmsg_lem a inf slot rcv answers eight in
    subst (IsSame m inf slot) (same_message e run)
      (IsRead-IsSame m m0 slot inf a short octets reads is_read)

-- ===== src/Frame/Received.antt =====
-- What `readcanmsg` makes of the controller's receive buffer.
use c4l.Common.{
  ℕ, ◌+◌, ◌*◌, ◌/◌, ◌%◌, ◌^◌, ◌≤◌, ◌<◌, ◌≡◌, inr, refl, ◌∙◌, ap, arith, Option, some, List, ◌∷◌,
  if◌then◌else◌, get_or, bit_and, has, u8, u32, Bool, true, false, length,
}
use c4l.Message.{Msg, msg_ext, msg_rtr}
use c4l.Machine.{St, Vars, Access, >>=-some, output, input}
use c4l.Register
use c4l.Chip.Reads.{OnlyReads, none_since, one_since, OnlyReads-trans}
use c4l.Chip.Shadow.{written}
use c4l.Frame.{Msginf, read_bytes, read_id, read_frame, readcanmsg, with_flag}
use c4l.Frame.Bytes.{read_bytes_lem}
use c4l.Frame.Sent.{same_port}

-- The controller's frame registers, `frameinfo` and the twelve after it, answer `a` as long as it is only read.
abbrev pub Answers : (ℕ → ℕ) → St → Type 0
Answers a st =
    (log : List Access) (r : ℕ)
    → OnlyReads st.log log
    → Register.frameinfo ≤ r
    → r ≤ Register.frameinfo + 12
    → u8 (st.env log (st.vars.base + r)) ≡ a r

-- The identifier in the answers of an extended or a standard frame.
abbrev pub id_of : Bool → (ℕ → ℕ) → ℕ
id_of true a = u32 (
    a Register.canid1 * 2 ^ 21
    + a Register.canid2 * 2 ^ 13
    + a Register.canid3 * 2 ^ 5
    + a Register.canid4 / 2 ^ 3)
id_of false a = u32 (a Register.canid1 * 2 ^ 3 + a Register.canid2 / 2 ^ 5)

abbrev pub data_register : Bool → ℕ
data_register e = if e then Register.canxdata else Register.candata

-- The accesses `log`, and then a read of register `r`.
abbrev after_read : ℕ → St → List Access → List Access
after_read r st log = input (st.vars.base + r) (u8 (st.env log (st.vars.base + r))) ∷ log

ext_cong :
    {a b c d w x y z : ℕ}
    → w ≡ a
    → x ≡ b
    → y ≡ c
    → z ≡ d
    → u32 (w * 2 ^ 21 + x * 2 ^ 13 + y * 2 ^ 5 + z / 2 ^ 3)
      ≡ u32 (a * 2 ^ 21 + b * 2 ^ 13 + c * 2 ^ 5 + d / 2 ^ 3)
ext_cong p q r s = cc

std_cong : {a b w x : ℕ} → w ≡ a → x ≡ b → u32 (w * 2 ^ 3 + x / 2 ^ 5) ≡ u32 (a * 2 ^ 3 + b / 2 ^ 5)
std_cong p q = cc

read_id_lem :
    (e : Bool) (a : ℕ → ℕ) (st : St)
    → Answers a st
    → (st' : St) × (read_id e st ≡ some (id_of e a, st'))
      × OnlyReads st.log st'.log
      × (st'.env ≡ st.env)
      × (st'.vars ≡ st.vars)
      × (st'.dev ≡ st.dev)
unfolding read_id
read_id_lem true a st h =
    let l1 = after_read Register.canid1 st st.log in
    let l2 = after_read Register.canid2 st l1 in
    let l3 = after_read Register.canid3 st l2 in
    let l4 = after_read Register.canid4 st l3 in
    let since1 : OnlyReads st.log l1 = one_since _ _ st.log none_since in
    let since2 : OnlyReads st.log l2 = one_since _ _ l1 since1 in
    let since3 : OnlyReads st.log l3 = one_since _ _ l2 since2 in
    (
      record st { log = l4 },
      ap (λ t. some (t, record st { log = l4 }))
          (ext_cong (h st.log Register.canid1 none_since (omega arith) (omega arith))
            (h l1 Register.canid2 since1 (omega arith) (omega arith))
            (h l2 Register.canid3 since2 (omega arith) (omega arith))
            (h l3 Register.canid4 since3 (omega arith) (omega arith))),
      one_since _ _ l3 since3,
      refl,
      refl,
      refl,
    )
read_id_lem false a st h =
    let l1 = after_read Register.canid1 st st.log in
    let l2 = after_read Register.canid2 st l1 in
    let since1 : OnlyReads st.log l1 = one_since _ _ st.log none_since in
    (
      record st { log = l2 },
      ap (λ t. some (t, record st { log = l2 }))
          (std_cong (h st.log Register.canid1 none_since (omega arith) (omega arith))
            (h l1 Register.canid2 since1 (omega arith) (omega arith))),
      one_since _ _ l1 since1,
      refl,
      refl,
      refl,
    )

-- A message as `readcanmsg` returns it for the answers `a`, from the `slot` and `inf`. Of a length code
-- over 8 only that code less 9 bytes are read.
pub record IsRead (a : ℕ → ℕ) (inf : Msginf) (slot m : Msg) : Type 0 where
  pub id_is : m.id ≡ id_of (has (a Register.frameinfo) Register.can_eff) a
  pub length_is : m.length ≡ bit_and (a Register.frameinfo) 0x0f
  pub flags_is :
      m.flags
      ≡ with_flag
          (a Register.frameinfo)
          Register.can_eff
          msg_ext
          (with_flag (a Register.frameinfo) Register.can_rtr msg_rtr inf.flags)
  pub sec_is : m.tv_sec ≡ inf.tv_sec
  pub usec_is : m.tv_usec ≡ inf.tv_usec
  pub cob_is : m.cob ≡ slot.cob
  pub read_part :
      (j : ℕ)
      → j < m.length % 9
      → get_or m.bytes j 0 ≡ a (data_register (has (a Register.frameinfo) Register.can_eff) + j)
  pub kept_part : (j : ℕ) → m.length % 9 ≤ j → get_or m.bytes j 0 ≡ get_or slot.bytes j 0

data_register_bounds : (e : Bool) → (19 ≤ data_register e) × (data_register e ≤ 21)
data_register_bounds true = omega arith
data_register_bounds false = omega arith

-- The message that `readcanmsg` makes of the registers' answers, in a slot with an array of 8 bytes: identifier, format,
-- remote flag and length code are the frame's; for a length code up to 8 all its bytes are read, for a larger one only the
-- code less 9; the other bytes are the slot's. The receive buffer is released.
pub readcanmsg_lem :
    (a : ℕ → ℕ) (inf : Msginf) (slot : Msg) (st : St)
    → Answers a st
    → length slot.bytes ≡ 8
    → (m : Msg) × (st' : St) × (readcanmsg inf slot st ≡ some (m, st'))
      × IsRead a inf slot m
      × (length m.bytes ≡ 8)
      × (written st'.log (st.vars.base + Register.cancmd)
          ≡ some Register.can_release_receive_buffer)
      × (st'.vars ≡ st.vars)
      × (st'.dev ≡ st.dev)
unfolding readcanmsg
readcanmsg_lem a inf slot st h eight =
    let st1 : St = record st { log = after_read Register.frameinfo st st.log } in
    let e = has (a Register.frameinfo) Register.can_eff in
    let n = bit_and (a Register.frameinfo) 0x0f % 9 in
    let first : OnlyReads st.log st1.log = one_since _ _ st.log none_since in
    let (st2, run2, since2, env2, vars2, dev2) =
      read_id_lem e a st1
        (λ log r since. h log r (OnlyReads-trans st.log st1.log log first since)) in
    let eb : st2.vars.base ≡ st.vars.base = ap (λ (v : Vars). v.base) vars2 in
    let reg = data_register e in
    let (st3, out, run3, len3, inside, outside, vars3, dev3) =
      read_bytes_lem (λ j. a (reg + j)) reg slot.bytes 0 n st2 (omega arith)
        (λ log j since p q.
          ap (λ (f : List Access → ℕ → ℕ). u8 (f log (st2.vars.base + (reg + j)))) env2
          ∙ ap (λ (b : ℕ). u8 (st.env log (b + (reg + j)))) eb
          ∙ h log (reg + j)
              (OnlyReads-trans st.log st1.log log first
                (OnlyReads-trans st1.log st2.log log since2 since))
              (omega (arith, data_register_bounds e)) (omega (arith, data_register_bounds e))) in
    let st4 : St = record st3 {
      log = output (st3.vars.base + Register.cancmd) Register.can_release_receive_buffer ∷ st3.log;
    } in
    let m : Msg = record slot {
      flags =
          with_flag (a Register.frameinfo) Register.can_eff msg_ext
            (with_flag (a Register.frameinfo) Register.can_rtr msg_rtr inf.flags);
      id = id_of e a;
      tv_sec = inf.tv_sec;
      tv_usec = inf.tv_usec;
      length = bit_and (a Register.frameinfo) 0x0f;
      bytes = out;
    } in
    (
      m,
      st4,
      ap (λ (v : ℕ). read_frame inf slot v st1)
            (h st.log Register.frameinfo none_since (omega arith) (omega arith))
          ∙ >>=-some (read_id e) _ run2
          ∙ >>=-some (read_bytes reg slot.bytes 0 n) _ run3,
      record {
        id_is = refl;
        length_is = refl;
        flags_is = refl;
        sec_is = refl;
        usec_is = refl;
        cob_is = refl;
        read_part = λ j below. inside j (omega arith) (omega arith);
        kept_part = λ j above. outside j (inr (omega arith));
      },
      len3 ∙ eight,
      same_port st3.log _ _ 4 (ap (λ (v : Vars). v.base) vars3 ∙ eb),
      vars3 ∙ vars2,
      dev3 ∙ dev2,
    )

-- A run has one message.
pub same_message :
    {o : Option (Msg × St)} {m n : Msg} {s t : St} → o ≡ some (m, s) → o ≡ some (n, t) → m ≡ n
same_message p q = cc

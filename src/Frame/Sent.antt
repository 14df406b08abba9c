-- ===== src/Frame/Sent.antt =====
-- What `transmit` leaves in the controller's transmit buffer.
use c4l.Common.{
  ℕ, ◌+◌, ◌*◌, ◌/◌, ◌^◌, ◌≤◌, ◌<◌, ◌≡◌, inl, ◌∙◌, ap, arith, Option, some, List, ◌∷◌, get_or,
  bit_and, has, u8, Bool, true, false,
}
use c4l.Message.{Msg, msg_ext}
use c4l.Machine.{St, Dev, Vars, Access, >>=-some, output}
use c4l.Register
use c4l.Chip.Shadow.{written}
use c4l.Frame.{write_frame, transmit, frame_info, byte_count}
use c4l.Frame.Bytes.{write_bytes_lem}

-- The registers `reg` hold the frame of a message, in the extended or the standard format.
abbrev pub Holds : Bool → Msg → (ℕ → Option ℕ) → Type 0
Holds true m reg =
    (reg Register.frameinfo ≡ some (u8 (0x80 + frame_info m)))
    × (reg Register.canid1 ≡ some (u8 (m.id / 2 ^ 21)))
    × (reg Register.canid2 ≡ some (u8 (m.id / 2 ^ 13)))
    × (reg Register.canid3 ≡ some (u8 (m.id / 2 ^ 5)))
    × (reg Register.canid4 ≡ some (u8 (bit_and (u8 (m.id * 2 ^ 3)) 0xff)))
    × ((j : ℕ)
        → j < byte_count m.length
        → reg (Register.canxdata + j) ≡ some (u8 (get_or m.bytes j 0)))
Holds false m reg =
    (reg Register.frameinfo ≡ some (u8 (0 + frame_info m)))
    × (reg Register.canid1 ≡ some (u8 (m.id / 2 ^ 3)))
    × (reg Register.canid2 ≡ some (u8 (bit_and (u8 (m.id * 2 ^ 5)) 0xe0)))
    × ((j : ℕ)
        → j < byte_count m.length
        → reg (Register.candata + j) ≡ some (u8 (get_or m.bytes j 0)))

write_frame_lem :
    (e : Bool) (m : Msg) (st : St)
    → (st' : St) × (write_frame e m st ≡ some (tt, st'))
      × Holds e m (λ r. written st'.log (st.vars.base + r))
      × (st'.vars ≡ st.vars)
      × (st'.dev ≡ st.dev)
unfolding write_frame
write_frame_lem true m st =
    let b = st.vars.base in
    let st1 : St = record st {
      log =
          output (b + Register.canid4) (u8 (bit_and (u8 (m.id * 2 ^ 3)) 0xff))
          ∷ output (b + Register.canid3) (u8 (u8 (m.id / 2 ^ 5)))
          ∷ output (b + Register.canid2) (u8 (u8 (m.id / 2 ^ 13)))
          ∷ output (b + Register.canid1) (u8 (u8 (m.id / 2 ^ 21)))
          ∷ output (b + Register.frameinfo) (u8 (0x80 + frame_info m))
          ∷ st.log;
    } in
    let (st', e, inside, outside, ev, ed) =
      write_bytes_lem Register.canxdata m.bytes 0 (byte_count m.length) st1 in
    (
      st',
      e,
      (
        outside Register.frameinfo (inl (omega arith)) ∙ ground arith,
        outside Register.canid1 (inl (omega arith)) ∙ ground arith,
        outside Register.canid2 (inl (omega arith)) ∙ ground arith,
        outside Register.canid3 (inl (omega arith)) ∙ ground arith,
        outside Register.canid4 (inl (omega arith)) ∙ ground arith,
        λ j h. inside j (omega arith) (omega arith),
      ),
      ev,
      ed,
    )
write_frame_lem false m st =
    let b = st.vars.base in
    let st1 : St = record st {
      log =
          output (b + Register.canid2) (u8 (bit_and (u8 (m.id * 2 ^ 5)) 0xe0))
          ∷ output (b + Register.canid1) (u8 (u8 (m.id / 2 ^ 3)))
          ∷ output (b + Register.frameinfo) (u8 (0 + frame_info m))
          ∷ st.log;
    } in
    let (st', e, inside, outside, ev, ed) =
      write_bytes_lem Register.candata m.bytes 0 (byte_count m.length) st1 in
    (
      st',
      e,
      (
        outside Register.frameinfo (inl (omega arith)) ∙ ground arith,
        outside Register.canid1 (inl (omega arith)) ∙ ground arith,
        outside Register.canid2 (inl (omega arith)) ∙ ground arith,
        λ j h. inside j (omega arith) (omega arith),
      ),
      ev,
      ed,
    )

Holds-cong :
    (e : Bool) (m : Msg) (reg reg' : ℕ → Option ℕ)
    → ((r : ℕ) → Register.frameinfo ≤ r → reg' r ≡ reg r)
    → Holds e m reg
    → Holds e m reg'
Holds-cong true m reg reg' same (a, b, c, d, f, bytes) = (
  same Register.frameinfo (omega arith) ∙ a,
  same Register.canid1 (omega arith) ∙ b,
  same Register.canid2 (omega arith) ∙ c,
  same Register.canid3 (omega arith) ∙ d,
  same Register.canid4 (omega arith) ∙ f,
  λ j h. same (Register.canxdata + j) (omega arith) ∙ bytes j h,
)
Holds-cong false m reg reg' same (a, b, c, bytes) = (
  same Register.frameinfo (omega arith) ∙ a,
  same Register.canid1 (omega arith) ∙ b,
  same Register.canid2 (omega arith) ∙ c,
  λ j h. same (Register.candata + j) (omega arith) ∙ bytes j h,
)

other_port :
    (log : List Access) (b c v r : ℕ)
    → c ≡ b
    → 2 ≤ r
    → written (output (c + 1) v ∷ log) (b + r) ≡ written log (b + r)
other_port log b c v r e h = ground arith

pub same_port :
    (log : List Access) (b c v : ℕ) → c ≡ b → written (output (c + 1) v ∷ log) (b + 1) ≡ some v
same_port log b c v e = ground arith

-- After `transmit` the transmit buffer holds the frame of the message in its format, transmission is
-- requested and marked as in progress, and nothing else of the driver's state has changed.
pub transmit_lem :
    (m : Msg) (st : St)
    → (st' : St) × (transmit m st ≡ some (tt, st'))
      × Holds (has m.flags msg_ext) m (λ r. written st'.log (st.vars.base + r))
      × (written st'.log (st.vars.base + Register.cancmd) ≡ some Register.can_transmission_request)
      × (st'.vars ≡ st.vars)
      × (st'.dev ≡ record st.dev { txinprogress = 1 })
unfolding transmit
transmit_lem m st =
    let (st1, e, holds, ev, ed) = write_frame_lem (has m.flags msg_ext) m st in
    let st2 : St = record st1 {
      dev = record st1.dev { txinprogress = 1 };
      log = output (st1.vars.base + Register.cancmd) Register.can_transmission_request ∷ st1.log;
    } in
    let eb : st1.vars.base ≡ st.vars.base = ap (λ (v : Vars). v.base) ev in
    (
      st2,
      >>=-some (write_frame (has m.flags msg_ext) m) _ e,
      Holds-cong (has m.flags msg_ext) m (λ r. written st1.log (st.vars.base + r))
          (λ r. written st2.log (st.vars.base + r))
          (λ r h. other_port st1.log _ _ 1 r eb (omega arith)) holds,
      same_port st1.log _ _ 1 eb,
      ev,
      ap (λ (d : Dev). record d { txinprogress = 1 }) ed,
    )

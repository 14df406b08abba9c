-- ===== src/Frame.antt =====
-- sja1000funcs.c: from a message to the controller's transmit buffer and back, with the delayed
-- sending of linux_2.6.c. The code is that for registers one byte apart (`R_OFF` is 1).
pub mod Bytes
pub mod Quiet
pub mod Sent
pub mod Received
pub mod Wire
pub mod Timing
pub mod Delay
pub mod InTime
use c4l.Common.{
  ℕ, zero, suc, ◌+◌, ◌-◌, ◌*◌, ◌/◌, ◌%◌, ◌^◌, Option, none, some, List, [], ◌∷◌, Bool, true, false,
  ◌&&◌, ◌==◌, if◌then◌else◌, ltb, get_or, set, bit_and, bit_or, has, u8, u32, add32, sub32, slt32,
  div32, from_short, ◌>>=?◌,
}
use c4l.Message.{Msg, msg_rtr, msg_ext}
use c4l.Machine.{Dev, Timer, St, M, pure, ◌>>=◌, ◌>>◌, state, modify, with_dev}
use c4l.Register
use c4l.Chip.{can_in, can_out}

-- `MAX_CHANNELS`, the number of timers.
abbrev pub max_channels : ℕ
max_channels = 4

-- `hrtimer_start` with `usec * 1000` ns, an `int`.
abbrev pub started : ℕ → ℕ → Timer
started usec minor = record { nsec = u32 (usec * 1000); target = minor; armed = true }

abbrev pub start_timer : ℕ → ℕ → St → St
start_timer i usec st = record st { dly = set st.dly i (started usec st.dev.minor) }

unfoldable pub schedule_on : Option ℕ → ℕ → M (Unit {0})
schedule_on (some i) usec st = some (tt, start_timer i usec st)
schedule_on none usec st =
    if st.idly == max_channels
    then some (tt, st)
    else some (
      tt,
      start_timer st.idly usec
          (record st { dev = record st.dev { delayedwork = some st.idly }; idly = st.idly + 1 }),
    )

-- kapi_schedule_delayed. A device gets a timer the first time that it needs one; without a free
-- one nothing is started.
unfoldable pub schedule_delayed : ℕ → M (Unit {0})
unfolding schedule_on
schedule_delayed usec st = schedule_on st.dev.delayedwork usec st

-- `if (msg->length > 8) msg->length = 8`, for a `short`.
unfoldable pub clamp_length : ℕ → ℕ
clamp_length l = if ltb l (2 ^ 15) && ltb 8 l then 8 else l

-- What is left of a delay of `usec` when the time of the message on the bus is taken off, as an
-- `int`. The division faults at a rate of 0.
unfoldable pub remaining_delay : Bool → ℕ → ℕ → ℕ → Option ℕ
remaining_delay ext length usec baud =
    let header = 1 + 11 + 1 + 1 + 1 + 4 + 15 + 1 + 1 + 1 + 7 in
    let nbits = add32 (if ext then header + 18 + 2 else header) (u32 (from_short length * 8)) in
    div32 (u32 (nbits * 1000)) baud >>=? λ t. some (sub32 usec t)

-- The data bytes from the `i`-th on, `left` of them, to the registers from `reg` on.
unfoldable pub write_bytes : ℕ → List ℕ → ℕ → ℕ → M (Unit {0})
write_bytes reg bytes i zero = pure tt
write_bytes reg bytes i (suc left) = do
  can_out (reg + i) (get_or bytes i 0)
  write_bytes reg bytes (i + 1) left

-- `i < msg->length` for a `short`: no byte if it is negative.
abbrev pub byte_count : ℕ → ℕ
byte_count l = if ltb l (2 ^ 15) then l else 0

abbrev pub frame_info : Msg → ℕ
frame_info m = if has m.flags msg_rtr then bit_or (u8 m.length) Register.can_rtr else u8 m.length

unfoldable pub write_frame : Bool → Msg → M (Unit {0})
unfolding can_out write_bytes
write_frame true m = do
  can_out Register.frameinfo (Register.can_eff + frame_info m)
  can_out Register.canid1 (u8 (m.id / 2 ^ 21))
  can_out Register.canid2 (u8 (m.id / 2 ^ 13))
  can_out Register.canid3 (u8 (m.id / 2 ^ 5))
  can_out Register.canid4 (bit_and (u8 (m.id * 2 ^ 3)) 0xff)
  write_bytes Register.canxdata m.bytes 0 (byte_count m.length)
write_frame false m = do
  can_out Register.frameinfo (Register.can_sff + frame_info m)
  can_out Register.canid1 (u8 (m.id / 2 ^ 3))
  can_out Register.canid2 (bit_and (u8 (m.id * 2 ^ 5)) 0xe0)
  write_bytes Register.candata m.bytes 0 (byte_count m.length)

unfoldable pub transmit : Msg → M (Unit {0})
unfolding can_out write_frame
transmit m = do
  write_frame (has m.flags msg_ext) m
  can_out Register.cancmd Register.can_transmission_request
  with_dev (λ d. record d { txinprogress = 1 })

-- The two ways to go on: the message is consumed, or it stays with its delay taken off.
unfoldable pub send_now : Msg → M (ℕ × Msg)
unfolding transmit
send_now m = do transmit m; pure (1, m)

unfoldable pub send_or_wait : Msg → ℕ → M (ℕ × Msg)
unfolding schedule_delayed send_now
send_or_wait m dly =
    let wait : M (ℕ × Msg) = schedule_delayed dly >> pure (0, record m { tv_usec = 0 }) in
    if slt32 0 dly then wait else send_now m

-- sendcanmsg: the answer 1 if the message is consumed, and the message as it leaves the slot.
unfoldable pub sendcanmsg : Msg → M (ℕ × Msg)
unfolding remaining_delay clamp_length send_or_wait
sendcanmsg msg st =
    let m : Msg = record msg { length = clamp_length msg.length } in
    let dly = remaining_delay (has m.flags msg_ext) m.length m.tv_usec st.vars.baud in
    if m.tv_usec == 0 then send_now m st else dly >>=? λ d. send_or_wait m d st

-- `struct Msginf`.
pub record Msginf : Type 0 where
  pub flags : ℕ
  pub minor : ℕ
  pub tv_sec : ℕ
  pub tv_usec : ℕ

unfoldable pub read_bytes : ℕ → List ℕ → ℕ → ℕ → M (List ℕ)
read_bytes reg bytes i zero = pure bytes
read_bytes reg bytes i (suc left) = do
  b ← can_in (reg + i)
  read_bytes reg (set bytes i b) (i + 1) left

unfoldable pub read_id : Bool → M ℕ
unfolding can_in
read_id true = do
  a ← can_in Register.canid1
  b ← can_in Register.canid2
  c ← can_in Register.canid3
  d ← can_in Register.canid4
  pure (u32 (a * 2 ^ 21 + b * 2 ^ 13 + c * 2 ^ 5 + d / 2 ^ 3))
read_id false = do
  a ← can_in Register.canid1
  b ← can_in Register.canid2
  pure (u32 (a * 2 ^ 3 + b / 2 ^ 5))

-- The flag `bit` is set if `reg` has a bit of `mask`.
abbrev pub with_flag : ℕ → ℕ → ℕ → ℕ → ℕ
with_flag reg mask bit flags = if has reg mask then bit_or flags bit else flags

-- The rest of readcanmsg, with the frame information `reg`.
unfoldable pub read_frame : Msginf → Msg → ℕ → M Msg
unfolding can_out
read_frame inf slot reg = do
  let ext = has reg Register.can_eff
  let length = bit_and reg 0x0f
  id ← read_id ext
  bytes ← read_bytes (if ext then Register.canxdata else Register.candata) slot.bytes 0 (length % 9)
  can_out Register.cancmd Register.can_release_receive_buffer
  pure (record slot {
    flags =
        with_flag reg Register.can_eff msg_ext (with_flag reg Register.can_rtr msg_rtr inf.flags);
    id = id;
    tv_sec = inf.tv_sec;
    tv_usec = inf.tv_usec;
    length = length;
    bytes = bytes;
  })

-- readcanmsg: the received frame, into a slot whose other fields and bytes stay.
unfoldable pub readcanmsg : Msginf → Msg → M Msg
unfolding can_in read_frame
readcanmsg inf slot = do reg ← can_in Register.frameinfo; read_frame inf slot reg

-- errmsg: a message that tells of an error by its flags.
unfoldable pub errmsg : Msginf → Msg → M Msg
errmsg inf slot = pure (record slot {
  flags = inf.flags;
  id = 0xffff_ffff;
  tv_sec = inf.tv_sec;
  tv_usec = inf.tv_usec;
  length = 0;
})

-- ===== src/Frame/Delay.antt =====
-- The delay of a message: when `sendcanmsg` sends, and when it starts a timer instead.
use native.Mathlib.Nat.{div-le_self}
use native.Mathlib.Decide.{dec_lt, ℕ_discrete}
use c4l.Common.{
  div32, add32, sub32, from_short, ℕ, ◌+◌, ◌-◌, ◌*◌, ◌/◌, ◌^◌, ◌≤◌, ◌<◌, ◌≡◌, ◌≢◌, ◌⊎◌, inl, inr,
  refl, ◌∙◌, ap, arith, [], ◌∷◌, ◌++◌, Option, none, some, ◌==◌, if◌then◌else◌, has, u32, Bool,
  true, false, Bool-cases, slt32, Option-cases,
}
use c4l.Message.{Msg, msg_ext}
use c4l.Machine.{St, pure, >>=-some}
use c4l.Chip.Shadow.{written}
use c4l.Chip.Requests.{SameTimers, requests}
use c4l.Frame.Timing.{HasTimer, StartsTimer, schedule_on_lem}
use c4l.Frame.Quiet.{transmit-requests}
use c4l.Frame.Sent.{Holds, transmit_lem}
use c4l.Frame.{
  schedule_delayed, schedule_on, send_now, send_or_wait, clamp_length, remaining_delay, sendcanmsg,
  transmit,
}

-- The time in microseconds of a message with `n` bytes on the bus, at a rate in kbit/s.
abbrev pub bus_time : Bool → ℕ → ℕ → ℕ
bus_time ext n baud = (44 + (if ext then 20 else 0) + 8 * n) * 1000 / baud

div32-pos : (a b : ℕ) → a < 2 ^ 31 → b < 2 ^ 31 → b ≢ 0 → div32 a b ≡ some (a / b)
div32-pos a b ha hb hne = ground arith

frame_bits :
    (ext : Bool) (n : ℕ)
    → n ≤ 8
    → u32 (add32 (if ext then 64 else 44) (u32 (from_short n * 8)) * 1000)
      ≡ (44 + (if ext then 20 else 0) + 8 * n) * 1000
frame_bits true n h = ground arith
frame_bits false n h = ground arith

frame_bits_small :
    (ext : Bool) (n : ℕ) → n ≤ 8 → (44 + (if ext then 20 else 0) + 8 * n) * 1000 < 2 ^ 31
frame_bits_small true n h = omega arith
frame_bits_small false n h = omega arith

bus_time_small : (ext : Bool) (n baud : ℕ) → n ≤ 8 → bus_time ext n baud < 2 ^ 31
bus_time_small ext n baud h = omega (
  arith,
  frame_bits_small ext n h,
  div-le_self ((44 + (if ext then 20 else 0) + 8 * n) * 1000) baud,
)

remaining_delay-some :
    (ext : Bool) (n usec baud : ℕ)
    → n ≤ 8
    → baud < 2 ^ 31
    → baud ≢ 0
    → remaining_delay ext n usec baud ≡ some (sub32 usec (bus_time ext n baud))
unfolding remaining_delay
remaining_delay-some ext n usec baud short small ne =
    rw (frame_bits ext n short, div32-pos _ baud (frame_bits_small ext n short) small ne)

-- For a message of at most 8 bytes, and a delay and a rate below 2 ^ 31, the delay that is left is the delay less the time on the bus, and
-- it counts as none where the time on the bus is as long. A rate of 0 is a fault.
pub remaining_delay_lem :
    (ext : Bool) (n usec baud : ℕ)
    → n ≤ 8
    → usec < 2 ^ 31
    → baud < 2 ^ 31
    → ((baud ≡ 0) × (remaining_delay ext n usec baud ≡ none))
      ⊎ ((bus_time ext n baud < usec)
          × (remaining_delay ext n usec baud ≡ some (usec - bus_time ext n baud)))
      ⊎ ((usec ≤ bus_time ext n baud)
          × ((d : ℕ) × (remaining_delay ext n usec baud ≡ some d) × (slt32 0 d ≡ false)))
unfolding remaining_delay
remaining_delay_lem ext n usec baud short small_usec small_baud = elim (ℕ_discrete baud 0) [
  | yes e ↦ inl (e, rw e)
  | no ne ↦ elim (dec_lt (bus_time ext n baud) usec) [
    | yes lt ↦
        inr (inl (lt, remaining_delay-some ext n usec baud short small_baud ne ∙ ap some (left lt)))
    | no ge ↦ inr (
        inr (
          omega arith,
          (_, remaining_delay-some ext n usec baud short small_baud ne, none_left (omega arith)),
        ))
  ]
]
  where
    left :
        bus_time ext n baud < usec → sub32 usec (bus_time ext n baud) ≡ usec - bus_time ext n baud
    left h = omega arith

    none_left : usec ≤ bus_time ext n baud → slt32 0 (sub32 usec (bus_time ext n baud)) ≡ false
    none_left h = ground (arith, bus_time_small ext n baud short)

pub clamp_length-clamp_length : (n : ℕ) → clamp_length (clamp_length n) ≡ clamp_length n
unfolding clamp_length
clamp_length-clamp_length n = ground arith

abbrev pub clamped : Msg → Msg
clamped m = record m { length = clamp_length m.length }

-- The message is sent: it is in the transmit buffer, one transmission is requested, and only `txinprogress` has changed.
abbrev pub Sends : Msg → St → Type 0
Sends m st =
    (st' : St) × (sendcanmsg m st ≡ some ((1, clamped m), st'))
    × Holds (has m.flags msg_ext) (clamped m) (λ r. written st'.log (st.vars.base + r))
    × (st'.vars ≡ st.vars)
    × (st'.dev ≡ record st.dev { txinprogress = 1 })
    × (requests st.vars.base st'.log ≡ requests st.vars.base st.log ++ st'.log ∷ [])
    × SameTimers st st'

-- The message is kept with its delay taken off, without an access to the controller, and only the
-- device's timer may have changed; if there is one for the device, it is started with `d` microseconds. The next time, in
-- whatever state, the message is sent.
abbrev pub Keeps : ℕ → Msg → St → Type 0
Keeps d m st =
    (st' : St) × (sendcanmsg m st ≡ some ((0, record (clamped m) { tv_usec = 0 }), st'))
    × (st'.log ≡ st.log)
    × (st'.vars ≡ st.vars)
    × (st'.dev ≡ record st.dev { delayedwork = st'.dev.delayedwork })
    × ((later : St) → Sends (record (clamped m) { tv_usec = 0 }) later)
    × (HasTimer st → StartsTimer d st' × HasTimer st')

-- What is left of the delay of the message.
abbrev pub left_of : Msg → St → Option ℕ
left_of m st = remaining_delay (has m.flags msg_ext) (clamp_length m.length) m.tv_usec st.vars.baud

Sends-now : (m : Msg) (st : St) → sendcanmsg m st ≡ send_now (clamped m) st → Sends m st
unfolding send_now
Sends-now m st e =
    let (st', run, holds, cmd, ev, ed) = transmit_lem (clamped m) st in
    let (asked, idly) = transmit-requests (clamped m) st st' run in
    (
      st',
      e ∙ >>=-some (transmit (clamped m)) (λ _. pure (1, clamped m)) run,
      holds,
      ev,
      ed,
      asked,
      idly,
    )

Sends-undelayed : (m : Msg) (st : St) → m.tv_usec ≡ 0 → Sends m st
Sends-undelayed m st e = Sends-now m st (unfold sendcanmsg in rw e)

-- No delay is left.
abbrev pub Due : Msg → St → Type 0
Due m st = (m.tv_usec ≡ 0) ⊎ ((d : ℕ) × (left_of m st ≡ some d) × (slt32 0 d ≡ false))

-- What `sendcanmsg` may do: send the message at once, keep it for a timer, or divide by a rate of 0.
abbrev pub Sending : Msg → St → Type 0
Sending m st =
    (Due m st × Sends m st)
    ⊎ ((d : ℕ) × (m.tv_usec ≢ 0) × (left_of m st ≡ some d) × (slt32 0 d ≡ true) × Keeps d m st)
    ⊎ ((sendcanmsg m st ≡ none) × (m.tv_usec ≢ 0) × (st.vars.baud ≡ 0))

sends_or_waits :
    (m : Msg) (st : St) (d : ℕ)
    → m.tv_usec ≢ 0
    → left_of m st ≡ some d
    → sendcanmsg m st ≡ send_or_wait (clamped m) d st
    → Sending m st
unfolding send_or_wait schedule_delayed
sends_or_waits m st d delayed left e = elim (Bool-cases (slt32 0 d)) [
  | inl wait ↦
      let (st', run, el, ev, ed, timer) = schedule_on_lem st.dev.delayedwork d st in
      inr (
        inl (
          d,
          delayed,
          left,
          wait,
          (
            st',
            e
                ∙ rw wait (
                    >>=-some (schedule_on st.dev.delayedwork d)
                      (λ _. pure (0, record (clamped m) { tv_usec = 0 })) run),
            el,
            ev,
            ed,
            (λ later. Sends-undelayed (record (clamped m) { tv_usec = 0 }) later refl),
            timer refl,
          ),
        ))
  | inr now ↦ inl (inr (d, left, now), Sends-now m st (e ∙ rw now))
]

pub remaining_delay-none :
    (ext : Bool) (n usec baud : ℕ) → remaining_delay ext n usec baud ≡ none → baud ≡ 0
unfolding remaining_delay
remaining_delay-none ext n usec baud e = ground arith

-- Of any message, `sendcanmsg` sends it now if no delay is left, and else keeps it for one timer and sends it the next
-- time, or, with a delay and a rate of 0, faults by a division.
pub sendcanmsg_cases : (m : Msg) (st : St) → Sending m st
sendcanmsg_cases m st = elim (Bool-cases (m.tv_usec == 0)) [
  | inl now ↦ inl (inl (ground arith), Sends-now m st (unfold sendcanmsg in rw now))
  | inr later ↦ elim (Option-cases (left_of m st)) [
    | inl fault ↦ inr (
        inr (
          unfold sendcanmsg in rw (later, fault),
          ground arith,
          remaining_delay-none _ _ _ _ fault,
        ))
    | inr (d, e) ↦ sends_or_waits m st d (ground arith) e (unfold sendcanmsg in rw (later, e))
  ]
]

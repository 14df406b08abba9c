-- ===== src/Frame/InTime.antt =====
-- When `sendcanmsg` sends a message, and when it starts a timer for it.
use c4l.Common.{ℕ, ◌-◌, ◌≤◌, ◌<◌, ◌≡◌, ◌≢◌, ◌⊎◌, none, some, has, false, slt32}
use c4l.Message.{Msg, msg_ext}
use c4l.Machine.{St}
use c4l.Frame.{clamp_length, sendcanmsg}
use c4l.Frame.Delay.{bus_time, Sends, Keeps, left_of}

-- The time that the message takes on the bus, in microseconds, at the rate of the device.
abbrev pub time_of : Msg → St → ℕ
time_of m st = bus_time (has m.flags msg_ext) (clamp_length m.length) st.vars.baud

-- A message is sent, kept for what its delay has left, or makes the driver divide by 0, by its delay and the rate.
abbrev pub SendsInTime : Msg → St → Type 0
SendsInTime m st =
    ((m.tv_usec ≡ 0) × Sends m st)
    ⊎ ((st.vars.baud ≢ 0) × (m.tv_usec ≤ time_of m st) × Sends m st)
    ⊎ ((st.vars.baud ≢ 0) × (time_of m st < m.tv_usec) × Keeps (m.tv_usec - time_of m st) m st)
    ⊎ ((st.vars.baud ≡ 0) × (m.tv_usec ≢ 0) × (sendcanmsg m st ≡ none))

-- What the arithmetic says of the delay that is left.
abbrev Left : Msg → St → Type 0
Left m st =
    ((st.vars.baud ≡ 0) × (left_of m st ≡ none))
    ⊎ ((time_of m st < m.tv_usec) × (left_of m st ≡ some (m.tv_usec - time_of m st)))
    ⊎ ((m.tv_usec ≤ time_of m st) × ((d : ℕ) × (left_of m st ≡ some d) × (slt32 0 d ≡ false)))

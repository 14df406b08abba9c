-- ===== src/Examples/Bus.antt =====
-- Runs of the interrupt handler and of frames between two controllers.
use c4l.Common.{
  ℕ, zero, suc, ◌-◌, ◌≤◌, ◌<◌, ◌≡◌, ◌⊎◌, refl, arith, none, some, List, [], ◌∷◌, ◌++◌, Bool, false,
  ◌==◌, if◌then◌else◌, slt32, get_or,
}
use c4l.Examples.{
  clock, device, empty_queue, hello, no_timer, interrupting, ready, ready-IsOpen, rx_mem, sending,
  sending-IsOpen, silent, stamp, tx_mem, vars,
}
use c4l.Frame.Delay.{bus_time, remaining_delay_lem}
use c4l.Frame.Received.{Answers, IsRead}
use c4l.Frame.Wire.{Carried, IsSame, readcanmsg-sendcanmsg}
use c4l.Isr.Errors.{Reports}
use c4l.Isr.Warnings.{Warns, on_warning_lem}
use c4l.Isr.Loop.{Ends, Settles, can_interrupt-Ends}
use c4l.Isr.Receive.{on_receive_lem}
use c4l.Isr.Transmit.{TurnsAndWakes, on_transmit_lem}
use c4l.Message.{Msg, zero_msg}
use c4l.Machine.{Access, St, output}
use c4l.Msgq.{qlen}
use c4l.Msgq.Valid.{contents}
use c4l.Frame.{Msginf, readcanmsg, remaining_delay, sendcanmsg}
use c4l.Isr.{can_interrupt, on_receive, on_transmit, on_warning}
use c4l.Chip.Reads.{reads}
use c4l.Isr.Safe.{rx_bits}
use c4l.Msgq.Slots.{free_slot}

-- What the transmit buffer holds after `hello` was sent.
abbrev hello_frame : ℕ → ℕ
hello_frame r =
    if r == 16
    then 2
    else if r == 17
    then 0x24
    else if r == 18
    then 0x60
    else if r == 19
    then 1
    else if r == 20
    then 2
    else 0

abbrev carried : List Access → ℕ → ℕ
carried log port = hello_frame (port - 640)

abbrev sent_hello : St
sent_hello = record {
  vars = vars;
  dev = record (device (empty_queue 2048 rx_mem) (empty_queue 128 tx_mem)) { txinprogress = 1 };
  log =
      output 641 1
      ∷ output 660 2
      ∷ output 659 1
      ∷ output 658 0x60
      ∷ output 657 0x24
      ∷ output 656 2
      ∷ [];
  env = silent;
  idly = 0;
  dly = no_timer ∷ no_timer ∷ no_timer ∷ no_timer ∷ [];
}

abbrev AllSmall : List ℕ → Type 0
AllSmall [] = Unit {0}
AllSmall (b ∷ bs) = (b < 256) × AllSmall bs

all_small : (l : List ℕ) → AllSmall l → (j : ℕ) → get_or l j 0 < 256
all_small [] h j = omega arith
all_small (b ∷ bs) (small, h) zero = small
all_small (b ∷ bs) (small, h) (suc j) = all_small bs h j

hello_octets : (j : ℕ) → get_or hello.bytes j 0 < 256
hello_octets j =
    all_small hello.bytes
      (
        omega arith,
        (
          omega arith,
          (
            omega arith,
            (omega arith, (omega arith, (omega arith, (omega arith, (omega arith, tt))))),
          ),
        ),
      )
      j

hello-Carried : Carried sent_hello hello_frame
hello-Carried r v lo hi e = ground arith

hello-Answers : Answers hello_frame (ready carried)
hello-Answers log r since lo hi = ground arith

settles : Settles 1 (sending interrupting hello)
settles log enough = ground arith

abbrev busoff : List Access → ℕ → ℕ
busoff log port = 0x80

abbrev overrun : List Access → ℕ → ℕ
overrun log port = 2

readcanmsg-sendcanmsg_example :
    let m : Msg = hello in
    let slot : Msg = zero_msg in
    let inf : Msginf = stamp in
    let rcv : St = ready carried in
    (m' : Msg) × (rcv' : St) × (readcanmsg inf slot rcv ≡ some (m', rcv')) × IsSame m inf slot m'
unfolding sendcanmsg
readcanmsg-sendcanmsg_example =
    readcanmsg-sendcanmsg hello zero_msg stamp (ready silent) sent_hello (ready carried) hello_frame
      (omega arith) refl (omega arith) hello_octets refl refl hello-Carried hello-Answers

can_interrupt-Ends_example : Ends (can_interrupt clock 1) (sending interrupting hello)
unfolding reads
can_interrupt-Ends_example =
    can_interrupt-Ends clock 1 (sending interrupting hello) (sending-IsOpen interrupting hello)
      settles

on_transmit_lem_example : TurnsAndWakes on_transmit (sending silent hello) (sending silent hello)
on_transmit_lem_example = on_transmit_lem (sending silent hello) (sending-IsOpen silent hello)

on_receive_lem_example :
    let a : ℕ → ℕ = λ r. 0 in
    let inf : Msginf = stamp in
    let st : St = ready silent in
    (m : Msg) × (st' : St) × (on_receive inf st ≡ some (tt, st'))
    × IsRead a inf (free_slot st.dev.rxq) m
    × (contents rx_bits st'.dev.rxq ≡ contents rx_bits st.dev.rxq ++ m ∷ [])
    × (st'.dev.txq ≡ st.dev.txq)
unfolding qlen
on_receive_lem_example =
    on_receive_lem (λ r. 0) stamp (ready silent) (ready-IsOpen silent) (λ log r since p q. refl)
      refl (omega arith)

on_warning_lem_example :
    let s : ℕ = 0x80 in
    let src : ℕ = 4 in
    let inf : Msginf = stamp in
    let st : St = ready busoff in
    (src' : ℕ) × (flags : ℕ) × (st' : St) × Warns s src inf st src' flags
    × (on_warning src inf st ≡ some ((src', record inf { flags = flags }), st'))
    × Reports flags inf st st'
unfolding qlen
on_warning_lem_example =
    on_warning_lem 0x80 4 stamp (ready busoff) (ready-IsOpen busoff) (λ log. refl) (omega arith)

remaining_delay_lem_example :
    let ext : Bool = false in
    let n : ℕ = 2 in
    let usec : ℕ = 5000 in
    let baud : ℕ = 125 in
    ((baud ≡ 0) × (remaining_delay ext n usec baud ≡ none))
    ⊎ ((bus_time ext n baud < usec)
        × (remaining_delay ext n usec baud ≡ some (usec - bus_time ext n baud)))
    ⊎ ((usec ≤ bus_time ext n baud)
        × ((d : ℕ) × (remaining_delay ext n usec baud ≡ some d) × (slt32 0 d ≡ false)))
remaining_delay_lem_example =
    remaining_delay_lem false 2 5000 125 (omega arith) (omega arith) (omega arith)

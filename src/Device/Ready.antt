-- ===== src/Device/Ready.antt =====
-- A successful can_open leaves the device ready: empty queues, and a controller that was set up and started.
use c4l.Common.{
  ℕ, ◌+◌, ◌^◌, ◌≤◌, ◌<◌, ◌≡◌, ◌≢◌, inl, inr, refl, ◌∙◌, sym, subst, ap, arith, some, List, [], Bool,
  true, false, slt32, ltb, u8, ◌==◌, Bool-cases, length, bit_and, sub32,
}
use c4l.Message.{Msg}
use c4l.Msgq.{MsgQ, qcreate}
use c4l.Msgq.Valid.{IsValid, contents, window}
use c4l.Machine.{Access, Dev, Vars, St, M, pure, ◌>>=◌, >>=-some, Result, ok}
use c4l.Register
use c4l.Chip.{chip_reset, start_chip}
use c4l.Chip.Requests.{SameTimers, requests, Same, Same-trans, Quiet-end}
use c4l.Chip.Quiet.{chip_reset-Quiet, start_chip-Quiet}
use c4l.Chip.Setup.{chip_reset_lem, status_read}
use c4l.Chip.Shadow.{written}
use c4l.Chip.Start.{start_chip_lem}
use c4l.Isr.Safe.{IsOpen, rx_bits, tx_bits}
use c4l.Device.{
  Kernel, can_range, request_irq, wait_init, fifo_init, attach_irq, vendor_init, open_chip,
  open_queues, after_vendor, can_open,
}

-- A queue from which everything was taken.
pub record IsDrained (q : MsgQ) : Type 0 where
  pub level : q.produced ≡ q.consumed
  pub in_range : q.consumed < 2 ^ 32

-- A fresh array of 2 ^ k slots makes a valid and empty ring of a drained queue.
pub qcreate_lem :
    (k : ℕ) (q : MsgQ) (protect : Bool) (mem : List Msg)
    → k ≤ 30
    → 1 ≤ 2 ^ k
    → length mem ≡ 2 ^ k
    → 2 ^ k < 2 ^ 32
    → IsDrained q
    → ((qcreate q (2 ^ k) protect (some mem)).0 ≡ 0)
      × IsValid k (qcreate q (2 ^ k) protect (some mem)).1
      × (contents k (qcreate q (2 ^ k) protect (some mem)).1 ≡ [])
      × ((qcreate q (2 ^ k) protect (some mem)).1.idle ≡ 1)
unfolding qcreate
qcreate_lem k q protect mem small pos len below d = (
  refl,
  record {
    small = small;
    mask_of = omega arith;
    slots = len;
    produced_in = omega (arith, d.level, d.in_range);
    consumed_in = d.in_range;
    fits = omega (arith, none_in);
  },
  ap (λ (n : ℕ). window mem (2 ^ k) q.consumed n) none_in,
  refl,
)
  where
    none_in : sub32 q.produced q.consumed ≡ 0
    none_in = omega (arith, d.level, d.in_range)

-- What CAN_VendorInit changes when the kernel grants all.
vendor_granted :
    (k : Kernel) (st : St)
    → k.region_free ≡ true
    → k.irq_reply ≡ 0
    → (d : Dev) × (vendor_init k st ≡ some (ok 0, record st { dev = d }))
      × (d.rxq ≡ st.dev.rxq)
      × (d.txq ≡ st.dev.txq)
      × (d.isopen ≡ st.dev.isopen)
      × (d.delayedwork ≡ st.dev.delayedwork)
unfolding vendor_init attach_irq request_irq
vendor_granted k st region irq = elim (Bool-cases (slt32 0 st.vars.irq)) [
  | inl used ↦ (
    record st.dev { can_range = can_range; requested_irq = 1 },
    rw (region, used, irq),
    refl,
    refl,
    refl,
    refl,
  )
  | inr unused ↦
      (record st.dev { can_range = can_range }, rw (region, unused), refl, refl, refl, refl)
]

-- The kernel grants all that an open asks for.
pub record Grants (k : Kernel) (rx tx : List Msg) : Type 0 where
  pub region : k.region_free ≡ true
  pub irq : k.irq_reply ≡ 0
  pub rx_some : k.rx_mem ≡ some rx
  pub tx_some : k.tx_mem ≡ some tx
  pub rx_slots : length rx ≡ 2 ^ rx_bits
  pub tx_slots : length tx ≡ 2 ^ tx_bits

-- The controller answers a reset request.
abbrev pub IsPresent : St → Type 0
IsPresent st =
    (log : List Access)
    → bit_and (u8 (st.env log (st.vars.base + Register.canmode))) Register.can_reset_request ≢ 0

-- No transmission is requested, and no timer taken.
abbrev pub SendsNothing : St → St → Type 0
SendsNothing st st' =
    (st'.vars.base ≡ st.vars.base)
    × (requests st.vars.base st'.log ≡ requests st.vars.base st.log)
    × SameTimers st st'

-- What a successful open leaves.
abbrev pub OpensAs : M Result → St → ℕ → Type 0
OpensAs m st count =
    (st' : St) × (m st ≡ some (ok 0, st'))
    × IsOpen st'
    × (contents rx_bits st'.dev.rxq ≡ [])
    × (contents tx_bits st'.dev.txq ≡ [])
    × (st'.dev.txq.idle ≡ 1)
    × (st'.dev.isopen ≡ count)
    × (written st'.log (st.vars.base + Register.canirq_enable) ≡ some 15)
    × (st'.dev.delayedwork ≡ st.dev.delayedwork)
    × SendsNothing st st'

nothing_sent : {st st' : St} → Same st st' → SendsNothing st st'
nothing_sent s = (s.base_same, s.no_request, s.timers_same)

-- The reset and the start of a controller that is there.
chip_ready :
    (st : St)
    → IsPresent st
    → (st' : St) × ((chip_reset >>= open_chip) st ≡ some (ok 0, st'))
      × (st'.vars.baud ≡ st.vars.baud)
      × (st'.dev ≡ st.dev)
      × (written st'.log (st.vars.base + Register.canirq_enable) ≡ some 15)
      × SendsNothing st st'
unfolding open_chip
chip_ready st present = elim (chip_reset_lem st) [
  | inl (absent, run) ↦ absurd (present (status_read st) absent)
  | inr (there, (st1, run, up, ev, ed)) ↦
      let (st2, run2, irqs, mode, ev2, ed2, others) = start_chip_lem st1 in
      (
        st2,
        >>=-some chip_reset open_chip {st = st} run
            ∙ >>=-some start_chip (λ _. pure (ok 0)) {st = st1} run2,
        ap (λ (v : Vars). v.baud) ev2 ∙ ap (λ (v : Vars). v.baud) ev,
        ed2 ∙ ed,
        subst (λ (b : ℕ). written st2.log (b + Register.canirq_enable) ≡ some 15)
            (ap (λ (v : Vars). v.base) ev) irqs,
        nothing_sent
            (Same-trans (Quiet-end chip_reset-Quiet run) (Quiet-end start_chip-Quiet run2)),
      )
]

queues_ready :
    (k : Kernel) (rx tx : List Msg) (st : St)
    → Grants k rx tx
    → IsDrained st.dev.rxq
    → IsDrained st.dev.txq
    → st.vars.baud ≢ 0
    → IsPresent st
    → OpensAs (open_queues k) st st.dev.isopen
unfolding open_queues wait_init fifo_init
queues_ready k rx tx st g drained_rx drained_tx baud present =
    let (rx_ok, rx_valid, rx_empty, rx_idle) =
      qcreate_lem rx_bits st.dev.rxq false rx (omega arith) (omega arith) g.rx_slots (omega arith)
        drained_rx in
    let (tx_ok, tx_valid, tx_empty, tx_idle) =
      qcreate_lem tx_bits st.dev.txq true tx (omega arith) (omega arith) g.tx_slots (omega arith)
        drained_tx in
    let st1 : St = record st {
      dev = record st.dev {
        wq = 0;
        rxq = (qcreate st.dev.rxq 2048 false (some rx)).1;
        txq = (qcreate st.dev.txq 128 true (some tx)).1;
      };
    } in
    let (st2, run, same_baud, ed, irqs, quiet) = chip_ready st1 present in
    (
      st2,
      rw (g.rx_some, g.tx_some, rx_ok, tx_ok) run,
      record {
        rx_valid = subst (λ (d : Dev). IsValid rx_bits d.rxq) (sym ed) rx_valid;
        tx_valid = subst (λ (d : Dev). IsValid tx_bits d.txq) (sym ed) tx_valid;
        baud_set = λ e. baud (sym same_baud ∙ e);
      },
      ap (λ (d : Dev). contents rx_bits d.rxq) ed ∙ rx_empty,
      ap (λ (d : Dev). contents tx_bits d.txq) ed ∙ tx_empty,
      ap (λ (d : Dev). d.txq.idle) ed ∙ tx_idle,
      ap (λ (d : Dev). d.isopen) ed,
      irqs,
      ap (λ (d : Dev). d.delayedwork) ed,
      quiet,
    )

-- An open of a free device, with a kernel that grants all, a controller that is there, and queues from which everything was
-- taken, returns 0: both queues are empty, the transmit queue is idle, the device is marked as open, the controller's interrupts
-- are enabled, and no transmission is requested.
pub can_open_ready :
    (k : Kernel) (rx tx : List Msg) (st : St)
    → Grants k rx tx
    → st.dev.minor ≤ 3
    → st.dev.isopen ≢ 1
    → st.vars.base ≢ 0
    → st.vars.baud ≢ 0
    → IsDrained st.dev.rxq
    → IsDrained st.dev.txq
    → IsPresent st
    → OpensAs (can_open k) st 1
unfolding can_open after_vendor
can_open_ready k rx tx st g legal free board baud drained_rx drained_tx present =
    let st0 : St = record st { dev = record st.dev { isopen = 1 } } in
    let (d, run, rx_same, tx_same, count, work) = vendor_granted k st0 g.region g.irq in
    let st1 : St = record st0 { dev = d } in
    let (st', run', op, rx_empty, tx_empty, idle, count', irqs, work', quiet) =
      queues_ready k rx tx st1 g (subst IsDrained (sym rx_same) drained_rx)
        (subst IsDrained (sym tx_same) drained_tx) baud present in
    (
      st',
      rw (is_legal, is_free, has_board)
          (>>=-some (vendor_init k) (after_vendor k) {st = st0} run ∙ run'),
      op,
      rx_empty,
      tx_empty,
      idle,
      count' ∙ count,
      irqs,
      work' ∙ work,
      quiet,
    )
  where
    is_legal : ltb 3 st.dev.minor ≡ false
    is_legal = ground arith

    is_free : (st.dev.isopen == 1) ≡ false
    is_free = ground arith

    has_board : (st.vars.base == 0) ≡ false
    has_board = ground arith

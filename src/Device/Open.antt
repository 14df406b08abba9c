-- ===== src/Device/Open.antt =====
-- can_open: a device can be opened once, and a successful open sets it up.
use c4l.Common.{
  ℕ, ◌-◌, ◌^◌, ◌≤◌, ◌≡◌, inl, inr, refl, ◌∙◌, ap, arith, some, Bool, true, false, slt32, ltb, ◌==◌,
  if◌then◌else◌, Bool-cases,
}
use c4l.Msgq.{qcreate}
use c4l.Machine.{Dev, St, M, pure, ◌>>=◌, >>=-some, Errno, Result, ok, err, with_dev}
use c4l.Chip.{chip_reset, start_chip}
use c4l.Chip.Setup.{chip_reset_lem}
use c4l.Chip.Start.{start_chip_lem}
use c4l.Device.{
  Kernel, can_range, request_irq, wait_init, fifo_init, attach_irq, vendor_init, open_chip,
  open_queues, after_vendor, can_open,
}

-- A run that ends without a fault, and leaves the device marked as open or not as it was.
abbrev MarkedAt : {A : Type 0} → M A → St → Type 0
MarkedAt {A} m st =
    (a : A) × (st' : St) × (m st ≡ some (a, st'))
    × (st'.dev.isopen ≡ st.dev.isopen)
    × (st'.dev.minor ≡ st.dev.minor)

record Marked {A : Type 0} (m : M A) : Type 0 where
  at : (st : St) → MarkedAt m st

pure-Marked : {A : Type 0} (a : A) → Marked (pure a)
pure-Marked a = record { at = λ st. (a, st, refl, refl, refl) }

>>=-Marked :
    {A B : Type 0} (m : M A) (f : A → M B) → Marked m → ((a : A) → Marked (f a)) → Marked (m >>= f)
>>=-Marked {A} {B} m f p q = record { at = go }
  where
    go : (st : St) → MarkedAt (m >>= f) st
    go st =
        let (a, st1, run1, count1, minor1) = p.at st in
        let (b, st2, run2, count2, minor2) = (q a).at st1 in
        (b, st2, >>=-some m f run1 ∙ run2, count2 ∙ count1, minor2 ∙ minor1)

if-Marked : {A : Type 0} (b : Bool) (m n : M A) → Marked m → Marked n → Marked (if b then m else n)
if-Marked true m n p q = p
if-Marked false m n p q = q

with_dev-Marked :
    (f : Dev → Dev)
    → ((d : Dev) → ((f d).isopen ≡ d.isopen) × ((f d).minor ≡ d.minor))
    → Marked (with_dev f)
with_dev-Marked f p = record {
  at = λ st. (tt, record st { dev = f st.dev }, refl, (p st.dev).0, (p st.dev).1);
}

request_irq-Marked : (k : Kernel) → Marked (request_irq k)
unfolding request_irq
request_irq-Marked k =
    >>=-Marked _ _
      (with_dev-Marked _
        (λ d. elim (Bool-cases (k.irq_reply == 0)) [ inl z ↦ (rw z, rw z) | inr n ↦ (rw n, rw n) ]))
      (λ _. pure-Marked k.irq_reply)

attach_irq-Marked : (k : Kernel) → Marked (attach_irq k)
unfolding attach_irq
attach_irq-Marked k = record {
  at = λ st. elim (Bool-cases (slt32 0 st.vars.irq)) [
    | inl used ↦ rw used (asked.at st)
    | inr unused ↦ (ok 0, st, rw unused, refl, refl)
  ];
}
  where
    asked : Marked (request_irq k >>= λ e. if e == 0 then pure (ok 0) else pure (err Errno.ebusy))
    asked = search (>>=-Marked, if-Marked, pure-Marked, request_irq-Marked)

ruleset marked = (>>=-Marked, if-Marked, pure-Marked, attach_irq-Marked)

set_range : Marked (with_dev (λ d. record d { can_range = can_range }))
set_range = with_dev-Marked _ (λ d. (refl, refl))

vendor_init-Marked : (k : Kernel) → Marked (vendor_init k)
unfolding vendor_init
vendor_init-Marked k = search (marked, set_range)

wait_init-Marked : Marked wait_init
unfolding wait_init
wait_init-Marked = >>=-Marked _ _ (with_dev-Marked _ (λ d. (refl, refl))) (λ _. pure-Marked 0)

chip_reset-Marked : Marked chip_reset
chip_reset-Marked = record {
  at = λ st. elim (chip_reset_lem st) [
    | inl (absent, run) ↦ (_, _, run, refl, refl)
    | inr (there, (st', run, up, ev, ed)) ↦
        (0, st', run, ap (λ (d : Dev). d.isopen) ed, ap (λ (d : Dev). d.minor) ed)
  ];
}

start_chip-Marked : Marked start_chip
start_chip-Marked = record {
  at = λ st.
      let (st', run, a, b, ev, ed, others) = start_chip_lem st in
      (0, st', run, ap (λ (d : Dev). d.isopen) ed, ap (λ (d : Dev). d.minor) ed);
}

open_chip-Marked : (r : ℕ) → Marked (open_chip r)
unfolding open_chip
open_chip-Marked r = search (marked, start_chip-Marked)

fifo_init-Marked : (k : Kernel) → Marked (fifo_init k)
unfolding fifo_init
fifo_init-Marked k = record { at = go }
  where
    with_rx : St → St
    with_rx st = record st {
      dev = record st.dev { rxq = (qcreate st.dev.rxq 2048 false k.rx_mem).1 };
    }

    with_both : St → St
    with_both st = record st {
      dev = record st.dev {
        rxq = (qcreate st.dev.rxq 2048 false k.rx_mem).1;
        txq = (qcreate st.dev.txq 128 true k.tx_mem).1;
      };
    }

    go : (st : St) → MarkedAt (fifo_init k) st
    go st = elim (Bool-cases ((qcreate st.dev.rxq 2048 false k.rx_mem).0 == 2 ^ 32 - 1)) [
      | inl no_rx ↦ (2 ^ 32 - 1, with_rx st, rw no_rx, refl, refl)
      | inr rx ↦ elim (Bool-cases ((qcreate st.dev.txq 128 true k.tx_mem).0 == 2 ^ 32 - 1)) [
        | inl no_tx ↦ (2 ^ 32 - 1, with_both st, rw (rx, no_tx), refl, refl)
        | inr tx ↦ (0, with_both st, rw (rx, tx), refl, refl)
      ]
    ]

open_queues-Marked : (k : Kernel) → Marked (open_queues k)
unfolding open_queues
open_queues-Marked k =
    search (marked, wait_init-Marked, fifo_init-Marked, chip_reset-Marked, open_chip-Marked) depth 9

after_vendor-Marked : (k : Kernel) (r : Result) → Marked (after_vendor k r)
unfolding after_vendor
after_vendor-Marked k (ok n) = open_queues-Marked k
after_vendor-Marked k (err e) = pure-Marked (err e)

-- Whatever an open of a device with a minor number up to 3 returned, an error of this open included, the next one is
-- refused.
pub can_open-can_open :
    (k k' : Kernel) (st : St)
    → st.dev.minor ≤ 3
    → (r : Result) × (st' : St) × (can_open k st ≡ some (r, st'))
      × (can_open k' st' ≡ some (err Errno.enxio, st'))
unfolding can_open
can_open-can_open k k' st in_range = elim (Bool-cases (st.dev.isopen == 1)) [
  | inl used ↦ (err Errno.enxio, st, rw (legal, used), rw (legal, used))
  | inr free ↦ elim (Bool-cases (st.vars.base == 0)) [
    | inl no_board ↦ (err Errno.enxio, marked_open, rw (legal, free, no_board), rw legal)
    | inr some_base ↦
        let (r, st', run, count, minor) =
          (>>=-Marked _ _ (vendor_init-Marked k) (after_vendor-Marked k)).at marked_open in
        (r, st', rw (legal, free, some_base) run, rw (minor, legal, count))
  ]
]
  where
    marked_open : St
    marked_open = record st { dev = record st.dev { isopen = 1 } }

    legal : ltb 3 st.dev.minor ≡ false
    legal = ground arith

-- ===== src/Device/Close.antt =====
-- can_close: what is left of an open device.
use c4l.Common.{
  ℕ, ◌+◌, ◌-◌, ◌^◌, ◌<◌, ◌≡◌, refl, ◌∙◌, sym, ap, arith, some, false, slt32, ltb, u8, ◌%◌,
  if◌then◌else◌, inl, inr, Bool-cases,
}
use c4l.Msgq.{qfree}
use c4l.Machine.{Dev, St, ◌>>=◌, >>=-some, Errno, Result, ok, err}
use c4l.Register
use c4l.Chip.{stop_chip}
use c4l.Chip.Shadow.{written}
use c4l.Chip.Start.{stop_chip_lem}
use c4l.Device.{fifo_cleanup, free_irq, close_count, can_close}

-- The device after its memory and its interrupt were given back.
abbrev pub released : Dev → Dev
released d = record d { txq = qfree d.txq; rxq = qfree d.rxq; requested_irq = 0 }

-- The last test of can_close, for a count that is not negative.
close_count_lem :
    (s : St)
    → s.dev.isopen < 2 ^ 31
    → close_count s
      ≡ some (
        (if ltb 0 s.dev.isopen then ok 0 else err Errno.ebadf),
        record s { dev = record s.dev { isopen = s.dev.isopen - 1 } },
      )
unfolding close_count
close_count_lem s small = elim (Bool-cases (ltb 0 s.dev.isopen)) [
  | inl used ↦ rw (same, used)
  | inr free ↦
      rw (same, free)
        (ap (λ (n : ℕ). some (err Errno.ebadf, record s { dev = record s.dev { isopen = n } }))
          (sym (unchanged free)))
]
  where
    same : slt32 0 s.dev.isopen ≡ ltb 0 s.dev.isopen
    same = ground arith

    unchanged : ltb 0 s.dev.isopen ≡ false → s.dev.isopen - 1 ≡ s.dev.isopen
    unchanged h = ground arith

-- On a device whose count of opens is not negative, closing puts the controller into reset mode, frees the queues and the interrupt, and makes the device free for another
-- open; for a device that was not open it does the same, and then returns an error.
pub can_close_lem :
    (st : St)
    → st.dev.isopen < 2 ^ 31
    → let mode = u8 (st.env st.log (st.vars.base + Register.canmode)) in
      (r : Result) × (st' : St) × (can_close st ≡ some (r, st'))
      × (written st'.log (st.vars.base + Register.canmode) ≡ some (mode - mode % 2 + 1))
      × (st'.vars ≡ st.vars)
      × (st'.dev ≡ record (released st.dev) { isopen = st.dev.isopen - 1 })
      × (r ≡ (if ltb 0 st.dev.isopen then ok 0 else err Errno.ebadf))
unfolding can_close fifo_cleanup free_irq
can_close_lem st small =
    let (st1, run, reg, ev, ed, others) = stop_chip_lem st in
    let st2 : St = record st1 { dev = released st1.dev } in
    let count = ap (λ (d : Dev). d.isopen) ed in
    (
      (if ltb 0 st.dev.isopen then ok 0 else err Errno.ebadf),
      record st2 { dev = record st2.dev { isopen = st2.dev.isopen - 1 } },
      >>=-some stop_chip (λ _. fifo_cleanup >>= λ _. free_irq >>= λ _. close_count) {st = st} run
          ∙ close_count_lem st2 (rw count small)
          ∙ ap
              (λ (n : ℕ). some (
                (if ltb 0 n then ok 0 else err Errno.ebadf),
                record st2 { dev = record st2.dev { isopen = st2.dev.isopen - 1 } },
              ))
              count,
      reg,
      ev,
      ap (λ (d : Dev). record (released d) { isopen = d.isopen - 1 }) ed,
      refl,
    )

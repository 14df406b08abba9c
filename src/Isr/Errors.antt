-- ===== src/Isr/Errors.antt =====
-- How the handler tells the user of errors: by messages in the receive queue.
use c4l.Common.{
  ℕ, ◌+◌, ◌^◌, ◌<◌, ◌≡◌, inl, inr, refl, ◌∙◌, sym, subst, ap, arith, Option, some, List, [], ◌∷◌,
  ◌++◌, u8, add32,
}
use c4l.Message.{Msg}
use c4l.Msgq.{qlen}
use c4l.Msgq.Valid.{contents}
use c4l.Msgq.Slots.{stored}
use c4l.Machine.{Access, input, output, Vars, St, M, ◌>>=◌, >>=-some}
use c4l.Register
use c4l.Chip.{can_in, can_out}
use c4l.Frame.{Msginf, errmsg}
use c4l.Isr.{rxproduce, with_ovr, on_overrun, buf_ok}
use c4l.Isr.Calm.{Stays, errmsg-Calm}
use c4l.Isr.Safe.{IsOpen, rx_bits}
use c4l.Isr.Receive.{rxproduce_lem}

-- The controller answers `v` whenever register `reg` is read.
abbrev pub Shows : ℕ → ℕ → St → Type 0
Shows reg v st = (log : List Access) → u8 (st.env log (st.vars.base + reg)) ≡ v

-- A message that tells of an error by its flags alone, with the time of the interrupt.
pub record IsError (flags : ℕ) (inf : Msginf) (m : Msg) : Type 0 where
  pub flags_is : m.flags ≡ flags
  pub id_is : m.id ≡ 0xffff_ffff
  pub length_is : m.length ≡ 0
  pub sec_is : m.tv_sec ≡ inf.tv_sec
  pub usec_is : m.tv_usec ≡ inf.tv_usec

-- The state after an error message, which is the last of the receive queue.
abbrev pub Reports : ℕ → Msginf → St → St → Type 0
Reports flags inf st st' =
    (m : Msg) × IsError flags inf m
    × (contents rx_bits st'.dev.rxq ≡ contents rx_bits st.dev.rxq ++ m ∷ [])
    × (st'.dev.txq ≡ st.dev.txq)

-- An error message that finds a free slot.
pub Reports-err :
    (inf : Msginf) (st : St)
    → IsOpen st
    → qlen st.dev.rxq < 2 ^ rx_bits
    → (st' : St) × (rxproduce (errmsg inf) st ≡ some (tt, st'))
      × Reports inf.flags inf st st'
      × Stays st st'
      × (st'.vars ≡ st.vars)
unfolding errmsg
Reports-err inf st h room = elim (rxproduce_lem (errmsg inf) (errmsg-Calm inf) st h) [
  | inl (full, e) ↦ absurd (omega (arith, full))
  | inr (free, (m, st1, got, run, holds, stays, tx)) ↦
      let st2 : St = record st1 {
        dev = record st1.dev { rxq = stored st.dev.rxq m; rxstatus = buf_ok; wq = st1.dev.wq + 1 };
      } in
      (
        st2,
        run,
        (
          m,
          subst (IsError inf.flags inf) (same refl got) (record {
            flags_is = refl;
            id_is = refl;
            length_is = refl;
            sec_is = refl;
            usec_is = refl;
          }),
          holds,
          tx,
        ),
        record {
          env_same = stays.env_same;
          base_same = stays.base_same;
          baud_same = stays.baud_same;
          reads_more = stays.reads_more;
        },
        sym (same_vars refl got),
      )
]
  where
    same :
        {o : Option (Msg × St)} {m n : Msg} {s t : St} → o ≡ some (m, s) → o ≡ some (n, t) → m ≡ n
    same p q = cc

    same_vars :
        {o : Option (Msg × St)} {m n : Msg} {s t : St}
        → o ≡ some (m, s)
        → o ≡ some (n, t)
        → s.vars ≡ t.vars
    same_vars p q = cc

-- The state after a read of `reg`.
abbrev pub after_read : ℕ → St → St
after_read reg st = record st {
  log = input (st.vars.base + reg) (u8 (st.env st.log (st.vars.base + reg))) ∷ st.log;
}

pub read-IsOpen : {st : St} (reg : ℕ) → IsOpen st → IsOpen (after_read reg st)
read-IsOpen reg h = record { rx_valid = h.rx_valid; tx_valid = h.tx_valid; baud_set = h.baud_set }

pub Shows-Stays : (reg : ℕ) {v : ℕ} {st st' : St} → Shows reg v st → Stays st st' → Shows reg v st'
Shows-Stays reg h s log = rw (s.env_same, s.base_same) (h log)

-- On an open device with a free slot, an overrun is counted, and the user gets an error message, flagged if the controller still shows the overrun.
pub on_overrun_lem :
    (s : ℕ) (inf : Msginf) (st : St)
    → IsOpen st
    → Shows Register.canstat s st
    → qlen st.dev.rxq < 2 ^ rx_bits
    → (st' : St) × (on_overrun inf st ≡ some (tt, st'))
      × (st'.vars.overrun ≡ add32 st.vars.overrun 1)
      × Reports (with_ovr inf s).flags (with_ovr inf s) st st'
unfolding on_overrun can_in can_out
on_overrun_lem s inf st h shows room =
    let st1 : St =
      after_read Register.canstat
        (record st { vars = record st.vars { overrun = add32 st.vars.overrun 1 } }) in
    let (st2, run, reports, stays, ev) =
      Reports-err (with_ovr inf s) st1
        (record { rx_valid = h.rx_valid; tx_valid = h.tx_valid; baud_set = h.baud_set }) room in
    (
      record st2 {
        log =
            output (st2.vars.base + Register.cancmd) (u8 Register.can_clear_overrun_status)
            ∷ st2.log;
      },
      ap (λ (v : ℕ). (rxproduce (errmsg (with_ovr inf v)) >>= clear) st1) (shows st.log)
          ∙ >>=-some (rxproduce (errmsg (with_ovr inf s))) clear {st = st1} run,
      ap (λ (v : Vars). v.overrun) ev,
      reports,
    )
  where
    clear : Unit {0} → M (Unit {0})
    clear _ = can_out Register.cancmd Register.can_clear_overrun_status

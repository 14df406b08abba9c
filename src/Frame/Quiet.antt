-- ===== src/Frame/Quiet.antt =====
-- The parts of the driver that write or read a frame make no transmission request, but for the one of `transmit`.
use c4l.Common.{
  ℕ, zero, suc, ◌+◌, ◌≡◌, ◌∙◌, ap, sym, arith, Option, some, List, ◌∷◌, [], ◌++◌, Bool, true, false,
  has, set, subst,
}
use c4l.Message.{Msg, msg_ext}
use c4l.Machine.{Access, output, St, >>=-some}
use c4l.Register
use c4l.Frame.{
  Msginf, write_bytes, write_frame, transmit, read_bytes, read_id, read_frame, readcanmsg, errmsg,
}
use c4l.Chip.Quiet.{quiet}
use c4l.Chip.Requests.{
  SameTimers, Quiet, requests, pure-Quiet, >>=-Quiet, can_in-Quiet, can_out-Quiet,
}

write_bytes-Quiet : (reg : ℕ) (bytes : List ℕ) (i n : ℕ) → Quiet (write_bytes (reg + 2) bytes i n)
unfolding write_bytes
write_bytes-Quiet reg bytes i zero = pure-Quiet tt
write_bytes-Quiet reg bytes i (suc n) =
    >>=-Quiet _ _ (can_out-Quiet _ _ (ground arith)) (λ _. write_bytes-Quiet reg bytes (i + 1) n)

write_frame-Quiet : (e : Bool) (m : Msg) → Quiet (write_frame e m)
unfolding write_frame
write_frame-Quiet true m = search (quiet, write_bytes-Quiet 19 m.bytes 0) depth 15
write_frame-Quiet false m = search (quiet, write_bytes-Quiet 17 m.bytes 0) depth 15

read_bytes-Quiet : (reg : ℕ) (bytes : List ℕ) (i n : ℕ) → Quiet (read_bytes reg bytes i n)
unfolding read_bytes
read_bytes-Quiet reg bytes i zero = pure-Quiet bytes
read_bytes-Quiet reg bytes i (suc n) =
    >>=-Quiet _ _ (can_in-Quiet _) (λ b. read_bytes-Quiet reg (set bytes i b) (i + 1) n)

read_id-Quiet : (e : Bool) → Quiet (read_id e)
unfolding read_id
read_id-Quiet true = search quiet depth 15
read_id-Quiet false = search quiet depth 15

pub readcanmsg-Quiet : (inf : Msginf) (slot : Msg) → Quiet (readcanmsg inf slot)
unfolding readcanmsg read_frame
readcanmsg-Quiet inf slot = search (quiet, read_id-Quiet, read_bytes-Quiet) depth 15

pub errmsg-Quiet : (inf : Msginf) (slot : Msg) → Quiet (errmsg inf slot)
unfolding errmsg
errmsg-Quiet inf slot = pure-Quiet _

request_output :
    (base c : ℕ) (log : List Access)
    → c ≡ base
    → requests base (output (c + Register.cancmd) 1 ∷ log)
      ≡ requests base log ++ (output (c + Register.cancmd) 1 ∷ log) ∷ []
unfolding requests
request_output base c log e = ground arith

same_end :
    {o : Unit {0}} {a b : St} → ◌≡◌ {A = Option (Unit {0} × St)} (some (o, a)) (some (o, b)) → a ≡ b
same_end e = cc

-- `transmit` makes one request, with its last access, and takes no timer.
pub transmit-requests :
    (m : Msg) (st st' : St)
    → transmit m st ≡ some (tt, st')
    → (requests st.vars.base st'.log ≡ requests st.vars.base st.log ++ st'.log ∷ [])
      × SameTimers st st'
unfolding transmit
transmit-requests m st st' run =
    let (_, st1, run1, same) = (write_frame-Quiet (has m.flags msg_ext) m).at st in
    let st2 : St = record st1 {
      dev = record st1.dev { txinprogress = 1 };
      log = output (st1.vars.base + Register.cancmd) Register.can_transmission_request ∷ st1.log;
    } in
    let e : st2 ≡ st' =
      same_end (sym (>>=-some (write_frame (has m.flags msg_ext) m) _ run1) ∙ run) in
    subst
      (λ (s : St).
        (requests st.vars.base s.log ≡ requests st.vars.base st.log ++ s.log ∷ [])
        × SameTimers st s)
      e
      (
        request_output st.vars.base st1.vars.base st1.log same.base_same
            ∙ ap (λ l. l ++ st2.log ∷ []) same.no_request,
        same.timers_same,
      )

-- ===== src/Isr/Calm.antt =====
-- What the parts of the driver that only speak to the controller leave alone, and that they run without a fault.
use c4l.Common.{
  ℕ, zero, suc, ◌+◌, ◌≤◌, ◌≡◌, ◌≢◌, inl, inr, refl, ◌∙◌, sym, arith, Option, some, List, Bool, true,
  false, ◌==◌, if◌then◌else◌, Bool-cases, has, none, Option-cases, slt32, set,
}
use c4l.Message.{Msg, msg_ext}
use c4l.Machine.{Access, Dev, St, M, pure, ◌>>=◌, >>=-some, with_dev}
use c4l.Chip.Reads.{reads, reads-input}
use c4l.Chip.{can_in, can_out, can_reset}
use c4l.Frame.{
  Msginf, write_bytes, write_frame, transmit, read_bytes, read_id, read_frame, readcanmsg, errmsg,
  schedule_on, schedule_delayed, send_now, send_or_wait, sendcanmsg, remaining_delay, clamp_length,
  start_timer, max_channels,
}
use c4l.Frame.Delay.{clamped, remaining_delay-none}

-- What stays the same when a part of the driver runs, other than the accesses, of which there may be more.
pub record Stays (st st' : St) : Type 0 where
  pub env_same : st'.env ≡ st.env
  pub base_same : st'.vars.base ≡ st.vars.base
  pub baud_same : st'.vars.baud ≡ st.vars.baud
  pub reads_more : (port : ℕ) → reads port st.log ≤ reads port st'.log

pub Stays-refl : (st : St) → Stays st st
Stays-refl st = record {
  env_same = refl;
  base_same = refl;
  baud_same = refl;
  reads_more = λ p. omega arith;
}

pub Stays-trans : {a b c : St} → Stays a b → Stays b c → Stays a c
Stays-trans p q = record {
  env_same = q.env_same ∙ p.env_same;
  base_same = q.base_same ∙ p.base_same;
  baud_same = q.baud_same ∙ p.baud_same;
  reads_more = λ port. omega (arith, p.reads_more port, q.reads_more port);
}

-- A calm run: no fault, and the queues stay too.
abbrev pub CalmAt : {A : Type 0} → M A → St → Type 0
CalmAt {A} m st =
    (a : A) × (st' : St) × (m st ≡ some (a, st'))
    × Stays st st'
    × (st'.dev.rxq ≡ st.dev.rxq)
    × (st'.dev.txq ≡ st.dev.txq)

pub record Calm {A : Type 0} (m : M A) : Type 0 where
  pub at : (st : St) → st.vars.baud ≢ 0 → CalmAt m st

pub pure-Calm : {A : Type 0} (a : A) → Calm (pure a)
pure-Calm a = record { at = λ st h. (a, st, refl, Stays-refl st, refl, refl) }

pub >>=-Calm :
    {A B : Type 0} (m : M A) (f : A → M B) → Calm m → ((a : A) → Calm (f a)) → Calm (m >>= f)
>>=-Calm {A} {B} m f p q = record { at = go }
  where
    go : (st : St) → st.vars.baud ≢ 0 → CalmAt (m >>= f) st
    go st h =
        let (a, st1, run1, stays1, rx1, tx1) = p.at st h in
        let (b, st2, run2, stays2, rx2, tx2) = (q a).at st1 (λ e. h (sym stays1.baud_same ∙ e)) in
        (b, st2, >>=-some m f run1 ∙ run2, Stays-trans stays1 stays2, rx2 ∙ rx1, tx2 ∙ tx1)

pub if-Calm : {A : Type 0} (b : Bool) (m n : M A) → Calm m → Calm n → Calm (if b then m else n)
if-Calm true m n p q = p
if-Calm false m n p q = q

pub only_log :
    {st : St} {log : List Access}
    → ((port : ℕ) → reads port st.log ≤ reads port log)
    → Stays st (record st { log = log })
only_log more = record { env_same = refl; base_same = refl; baud_same = refl; reads_more = more }

pub can_in-Calm : (reg : ℕ) → Calm (can_in reg)
unfolding can_in
can_in-Calm reg = record {
  at = λ st h. (_, _, refl, only_log (λ port. reads-input port _ _ _), refl, refl);
}

pub can_out-Calm : (reg v : ℕ) → Calm (can_out reg v)
unfolding can_out reads
can_out-Calm reg v = record {
  at = λ st h. (_, _, refl, only_log (λ port. omega arith), refl, refl);
}

pub write_bytes-Calm : (reg : ℕ) (bytes : List ℕ) (i n : ℕ) → Calm (write_bytes reg bytes i n)
unfolding write_bytes
write_bytes-Calm reg bytes i zero = pure-Calm tt
write_bytes-Calm reg bytes i (suc n) =
    >>=-Calm _ _ (can_out-Calm _ _) (λ _. write_bytes-Calm reg bytes (i + 1) n)

pub ruleset calm = (>>=-Calm, pure-Calm, can_in-Calm, can_out-Calm, if-Calm, write_bytes-Calm)

write_frame-Calm : (e : Bool) (m : Msg) → Calm (write_frame e m)
unfolding write_frame
write_frame-Calm true m = search calm depth 15
write_frame-Calm false m = search calm depth 15

-- A change of the state that leaves the queues, the accesses and the rate.
pub modify-Calm :
    (f : Dev → Dev) → ((d : Dev) → ((f d).rxq ≡ d.rxq) × ((f d).txq ≡ d.txq)) → Calm (with_dev f)
modify-Calm f p = record {
  at = λ st h. (
    tt,
    record st { dev = f st.dev },
    refl,
    record {
      env_same = refl;
      base_same = refl;
      baud_same = refl;
      reads_more = λ port. omega arith;
    },
    (p st.dev).0,
    (p st.dev).1,
  );
}

flag_in_progress : Calm (with_dev (λ d. record d { txinprogress = 1 }))
flag_in_progress = modify-Calm _ (λ d. (refl, refl))

send_now-Calm : (m : Msg) → Calm (send_now m)
unfolding send_now transmit
send_now-Calm m = search (calm, write_frame-Calm, flag_in_progress) depth 15

schedule_on-Calm : (o : Option ℕ) (usec : ℕ) (st : St) → CalmAt (schedule_on o usec) st
unfolding schedule_on
schedule_on-Calm none usec st = elim (Bool-cases (st.idly == max_channels)) [
  | inl full ↦ (tt, st, rw full, Stays-refl st, refl, refl)
  | inr free ↦ (
    tt,
    timed,
    rw free,
    record {
      env_same = refl;
      base_same = refl;
      baud_same = refl;
      reads_more = λ port. omega arith;
    },
    refl,
    refl,
  )
]
  where
    timed : St
    timed =
        start_timer st.idly usec
          (record st { dev = record st.dev { delayedwork = some st.idly }; idly = st.idly + 1 })
schedule_on-Calm (some i) usec st = (
  tt,
  start_timer i usec st,
  refl,
  record { env_same = refl; base_same = refl; baud_same = refl; reads_more = λ port. omega arith },
  refl,
  refl,
)

send_or_wait-Calm : (m : Msg) (d : ℕ) → Calm (send_or_wait m d)
unfolding send_or_wait schedule_delayed
send_or_wait-Calm m d =
    if-Calm (slt32 0 d) _ _
      (>>=-Calm _ _ (record { at = λ st h. schedule_on-Calm st.dev.delayedwork d st })
        (λ _. pure-Calm (0, record m { tv_usec = 0 })))
      (send_now-Calm m)

sendcanmsg-CalmAt : (m : Msg) (st : St) → st.vars.baud ≢ 0 → CalmAt (sendcanmsg m) st
unfolding sendcanmsg
sendcanmsg-CalmAt m st h = elim (Bool-cases (m.tv_usec == 0)) [
  | inl now ↦ rw (now, if◌then◌else◌) ((send_now-Calm (clamped m)).at st h)
  | inr later ↦
      elim (Option-cases
        (remaining_delay (has m.flags msg_ext) (clamp_length m.length) m.tv_usec st.vars.baud)) [
          | inl fault ↦
              absurd (h (remaining_delay-none _ (clamp_length m.length) m.tv_usec _ fault))
          | inr (d, e) ↦ rw (later, e) ((send_or_wait-Calm (clamped m) d).at st h)
        ]
]

pub sendcanmsg-Calm : (m : Msg) → Calm (sendcanmsg m)
sendcanmsg-Calm m = record { at = sendcanmsg-CalmAt m }

read_bytes-Calm : (reg : ℕ) (bytes : List ℕ) (i n : ℕ) → Calm (read_bytes reg bytes i n)
unfolding read_bytes
read_bytes-Calm reg bytes i zero = pure-Calm bytes
read_bytes-Calm reg bytes i (suc n) =
    >>=-Calm _ _ (can_in-Calm _) (λ b. read_bytes-Calm reg (set bytes i b) (i + 1) n)

read_id-Calm : (e : Bool) → Calm (read_id e)
unfolding read_id
read_id-Calm true = search calm depth 15
read_id-Calm false = search calm depth 15

pub readcanmsg-Calm : (inf : Msginf) (slot : Msg) → Calm (readcanmsg inf slot)
unfolding readcanmsg read_frame
readcanmsg-Calm inf slot = search (calm, read_id-Calm, read_bytes-Calm) depth 15

pub errmsg-Calm : (inf : Msginf) (slot : Msg) → Calm (errmsg inf slot)
unfolding errmsg
errmsg-Calm inf slot = pure-Calm _

pub can_reset-Calm : (reg m : ℕ) → Calm (can_reset reg m)
unfolding can_reset
can_reset-Calm reg m = search calm depth 15

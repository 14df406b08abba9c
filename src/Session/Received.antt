-- ===== src/Session/Received.antt =====
-- The messages that come into the receive queue, and leave it.
use c4l.Common.{ℕ, ◌≤◌, ◌≡◌, ◌⊎◌, refl, ◌∙◌, sym, ap, arith, some, List, [], ◌∷◌, ◌++◌}
use mathlib.Core.List.{append_assoc, append-nil}
use c4l.Message.{Msg}
use c4l.Msgq.Valid.{contents}
use c4l.Machine.{St, M}
use c4l.Msgq.{MsgQ}
use c4l.Chip.Reads.{reads}
use c4l.Chip.Requests.{Same}
use c4l.Frame.{Msginf, readcanmsg, errmsg}
use c4l.Isr.Calm.{Stays}
use c4l.Isr.Safe.{rx_bits}

-- The messages of the receive queue, the oldest first.
abbrev pub unread : St → List Msg
unread st = contents rx_bits st.dev.rxq

-- The same controller, with the same answers, that was read at least as often.
pub record Later (a b : St) : Type 0 where
  pub env_same : b.env ≡ a.env
  pub base_same : b.vars.base ≡ a.vars.base
  pub reads_more : (port : ℕ) → reads port a.log ≤ reads port b.log

pub Later-refl : (st : St) → Later st st
Later-refl st = record { env_same = refl; base_same = refl; reads_more = λ port. omega arith }

pub rx-Later : (st : St) (q : MsgQ) → Later st (record st { dev = record st.dev { rxq = q } })
rx-Later st q = record { env_same = refl; base_same = refl; reads_more = λ port. omega arith }

pub Later-trans : {a b c : St} → Later a b → Later b c → Later a c
Later-trans p q = record {
  env_same = q.env_same ∙ p.env_same;
  base_same = q.base_same ∙ p.base_same;
  reads_more = λ port. omega (arith, p.reads_more port, q.reads_more port);
}

pub Same-Later : {a b : St} → Same a b → Later a b
Same-Later s = record { env_same = s.env_same; base_same = s.base_same; reads_more = s.reads_more }

pub Stays-Later : {a b : St} → Stays a b → Later a b
Stays-Later s = record { env_same = s.env_same; base_same = s.base_same; reads_more = s.reads_more }

-- The message is that of a frame, or an error message.
abbrev pub IsMade : Msg → St → St → Type 0
IsMade m s s' =
    (inf : Msginf) × (slot : Msg) × ((readcanmsg inf slot s ≡ some (m, s'))
      ⊎ (errmsg inf slot s ≡ some (m, s')))

-- A callback for the receive queue that makes such messages.
abbrev pub Makes : (Msg → M Msg) → Type 0
Makes f = (slot m : Msg) (s s' : St) → f slot s ≡ some (m, s') → IsMade m s s'

-- The messages were made one after another on the way from `a` to `b`.
abbrev pub Received : List Msg → St → St → Type 0
Received [] a b = Later a b
Received (m ∷ ms) a b = (s : St) × (s' : St) × Later a s × IsMade m s s' × Received ms s' b

Later-Received : (ms : List Msg) (a b c : St) → Later a b → Received ms b c → Received ms a c
Later-Received [] a b c p q = Later-trans p q
Later-Received (m ∷ ms) a b c p (s, s', q, made, rest) = (s, s', Later-trans p q, made, rest)

Received-append :
    (ms ms' : List Msg) (a b c : St) → Received ms a b → Received ms' b c → Received (ms ++ ms') a c
Received-append [] ms' a b c p q = Later-Received ms' a b c p q
Received-append (m ∷ ms) ms' a b c (s, s', p, made, rest) q =
    (s, s', p, made, Received-append ms ms' s' b c rest q)

-- From `a` to `b` the messages `got` were read: together with what is unread, these are what was unread and what was received.
pub record Gathers (got : List Msg) (a b : St) : Type 0 where
  pub received : List Msg
  pub made : Received received a b
  pub rx_order : unread a ++ received ≡ got ++ unread b

pub Gathers-trans :
    {ms ms' : List Msg} {a b c : St} → Gathers ms a b → Gathers ms' b c → Gathers (ms ++ ms') a c
Gathers-trans {ms} {ms'} {a} {b} {c} p q = record {
  received = p.received ++ q.received;
  made = Received-append p.received q.received a b c p.made q.made;
  rx_order =
      sym (append_assoc (unread a) p.received q.received)
      ∙ ap (λ l. l ++ q.received) p.rx_order
      ∙ append_assoc ms (unread b) q.received
      ∙ ap (λ l. ms ++ l) q.rx_order
      ∙ sym (append_assoc ms ms' (unread c));
}

-- Nothing is received or read.
pub Later-Gathers : {a b : St} → Later a b → b.dev.rxq ≡ a.dev.rxq → Gathers [] a b
Later-Gathers {a} l same = record {
  received = [];
  made = l;
  rx_order = append-nil (unread a) ∙ ap (contents rx_bits) (sym same);
}

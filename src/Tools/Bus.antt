-- ===== src/Tools/Bus.antt =====
-- test10 of can_send on one device, can_verify on another, and the bus between them.
use c4l.Common.{
  ℕ, zero, suc, ◌+◌, ◌/◌, ◌%◌, ◌^◌, ◌<◌, ◌≤◌, ◌≡◌, refl, ◌∙◌, sym, ap, subst, arith, Option, some,
  List, [], ◌∷◌, ◌++◌, Bool, true, false, get_or, has, length,
}
use c4l.Message.{Msg, msg_ext}
use c4l.Machine.{Access, St}
use c4l.Register
use c4l.Chip.Requests.{requests}
use c4l.Chip.Shadow.{written}
use c4l.Frame.{Msginf, readcanmsg}
use c4l.Frame.Received.{Answers}
use c4l.Frame.Sent.{Holds}
use c4l.Frame.Wire.{Holds-IsSame, id_limit}
use c4l.File.{PollBits}
use c4l.Session.{Call}
use c4l.Session.Running.{Running, Loaded, waiting}
use c4l.Session.Received.{Received, unread}
use c4l.Tools.Bytes.{le_bytes}
use c4l.Tools.Stream.{nth_msg}
use c4l.Tools.Accepts.{MatchFrom}
use c4l.Tools.Arrives.{Arrives, Arrives-Matches}
use c4l.Tools.Verify.{Verifier, Complaint, fresh}
use c4l.Tools.Drive.{Next, goes_on, drive, ArePauses}
use c4l.Tools.Test10.{Sender, first_round, rest_of_seq, after_write}
use c4l.Tools.Test10.Stretch.{stretch}
use c4l.Tools.Test10.Checked.{test10_verified}
use c4l.Tools.Watch.{Outcome, watch}
use c4l.Tools.Watch.Parts.{Tells, AreWaits}
use c4l.Tools.Watch.Rounds.{watch_complains}

-- The message `m` was read from the registers of a controller that answered the frame in the transmit buffer of another one, as
-- the accesses `log` have left it. The slot that it was put into has an array of 8 bytes.
abbrev pub Transfers : ℕ → List Access → Msg → St → St → Type 0
Transfers base log m s s' =
    (inf : Msginf) × (slot : Msg) × (a : ℕ → ℕ) × (readcanmsg inf slot s ≡ some (m, s'))
    × (length slot.bytes ≡ 8)
    × Answers a s
    × ((r v : ℕ)
        → Register.frameinfo ≤ r
        → r ≤ Register.frameinfo + 12
        → written log (base + r) ≡ some v
        → a r ≡ v)

-- The messages come from the requests `logs`, in their order, and none before has been lost.
abbrev pub Comes :
    ℕ → List (List Access) → (ms : List Msg) → (b b' : St) → Received ms b b' → Type 0
Comes base logs [] b b' made = Unit {0}
Comes base [] (m ∷ ms) b b' made = ⊥
Comes base (log ∷ logs) (m ∷ ms) b b' (s, s', later, one, rest) =
    Transfers base log m s s' × Comes base logs ms s' b' rest

le_octets : (k v j : ℕ) → get_or (le_bytes k v) j 0 < 256
unfolding le_bytes
le_octets zero v j = omega arith
le_octets (suc k) v zero = omega arith
le_octets (suc k) v (suc j) = le_octets k (v / 256) j

has_ext : (extd : Bool) (n : ℕ) → has (nth_msg extd n).flags msg_ext ≡ extd
has_ext true n = refl
has_ext false n = refl

small_id : (extd : Bool) (n : ℕ) → (nth_msg extd n).id < id_limit extd
small_id true n = omega arith
small_id false n = omega arith

one_Arrives :
    (base : ℕ) (log : List Access) (extd : Bool) (n : ℕ) (m : Msg) (s s' : St)
    → Holds (has (nth_msg extd n).flags msg_ext) (nth_msg extd n) (λ r. written log (base + r))
    → Transfers base log m s s'
    → Arrives (nth_msg extd n) m
one_Arrives base log extd n m s s' holds (inf, slot, a, run, eight, answers, carried) =
    let same =
      Holds-IsSame (nth_msg extd n) m slot inf s s' a (λ r. written log (base + r)) (omega arith)
        (subst (λ (e : Bool). (nth_msg extd n).id < id_limit e) (sym (has_ext extd n))
          (small_id extd n))
        (le_octets 8 (n / 9 % 2 ^ 64)) eight holds carried answers run in
    record { id_same = same.id_same; length_same = same.length_same; bytes_same = same.bytes_same }

-- What comes from requests for the stream is the stream.
Comes-MatchFrom :
    (base : ℕ) (extd : Bool) (n len : ℕ) (logs : List (List Access)) (ms : List Msg) (b b' : St)
    (made : Received ms b b')
    → Loaded base logs (stretch extd n len)
    → Comes base logs ms b b' made
    → MatchFrom extd n ms
Comes-MatchFrom base extd n len logs [] b b' made loaded comes = tt
Comes-MatchFrom base extd n len [] (m ∷ ms) b b' made loaded comes = absurd comes
Comes-MatchFrom base extd n zero (log ∷ logs) (m ∷ ms) b b' made loaded comes = absurd loaded
Comes-MatchFrom base extd n (suc len) (log ∷ logs) (m ∷ ms) b b' (s, s', later, one, rest)
      (holds, loaded) (here, comes) =
    (
      Arrives-Matches extd n m (one_Arrives base log extd n m s s' holds here),
      Comes-MatchFrom base extd (suc n) len logs ms s' b' rest loaded comes,
    )

MatchFrom-first :
    (extd : Bool) (n : ℕ) (got rest : List Msg)
    → MatchFrom extd n (got ++ rest)
    → MatchFrom extd n got
MatchFrom-first extd n [] rest h = tt
MatchFrom-first extd n (m ∷ got) rest (here, h) = (here, MatchFrom-first extd (suc n) got rest h)

cancel : (a b c : List (List Access)) → a ++ b ≡ a ++ c → b ≡ c
cancel [] b c e = e
cancel (x ∷ a) b c e = cancel a b c (tails e)
  where
    tails : {x : List Access} {xs ys : List (List Access)} → x ∷ xs ≡ x ∷ ys → xs ≡ ys
    tails e = cc

same_sent :
    {ms ms' : List Msg} {q q' : Next Sender} {s s' : St}
    → ◌≡◌ {A = Option ((List Msg × Next Sender) × St)} (some ((ms, q), s)) (some ((ms', q'), s'))
    → s ≡ s'
same_sent e = cc

same_checked :
    {got got' : List Msg} {out out' : List Complaint} {v v' : Next Verifier} {s s' : St}
    → ◌≡◌ {A = Option (Outcome × St)} (some ((got, out, v), s)) (some ((got', out', v'), s'))
    → (got ≡ got') × (out ≡ out')
same_checked e = (cc, cc)

-- What the frames of a run of test 10 are loaded with.
sent_stream :
    (clock : List Access → ℕ × ℕ) (extd : Bool) (soll : ℕ) (pauses : List (List Call)) (a a' : St)
    (ms : List Msg) (q : Next Sender) (logs : List (List Access))
    → 0 < soll
    → soll < 2 ^ 32
    → ArePauses pauses
    → Running a
    → waiting a ≡ []
    → drive rest_of_seq (after_write extd soll) clock pauses (first_round extd) a
      ≡ some ((ms, q), a')
    → requests a.vars.base a'.log ≡ requests a.vars.base a.log ++ logs
    → (len : ℕ) × Loaded a.vars.base logs (stretch extd 0 len)
sent_stream clock extd soll pauses a a' ms q logs some_soll fits paused h empty run asked =
    let (ms0, q0, a0, run0, (logs0, sent, asked0, loaded, first, checked, amount)) =
      test10_verified clock extd soll pauses a some_soll fits paused h empty in
    let end : a' ≡ a0 = same_sent (sym run ∙ run0) in
    let same : logs0 ≡ logs =
      cancel (requests a.vars.base a.log) logs0 logs
        (sym asked0 ∙ ap (λ (s : St). requests a.vars.base s.log) (sym end) ∙ asked) in
    (
      length sent,
      subst (λ (l : List (List Access)). Loaded a.vars.base l (stretch extd 0 (length sent))) same
          (subst (λ (l : List Msg). Loaded a.vars.base logs0 l) first loaded),
    )

-- test 10 of can_send runs on the running device `a` with nothing to send, and can_verify on the running device `b` with nothing
-- to read, both with any calls of their drivers in between that set no bit rate of 0 and write or read nothing. If all that
-- `b` has received comes from the frames that `a` has requested to send, one after another from the first one on, and no frame
-- was lost on the way or by a full queue, can_verify has complained of nothing.
pub test10_arrives :
    (clock_a clock_b : List Access → ℕ × ℕ) (extd : Bool) (soll : ℕ)
    (pauses waits : List (List Call)) (bits : PollBits) (ready : ℕ → Bool) (a a' b b' : St)
    (ms got received : List Msg) (q : Next Sender) (logs : List (List Access))
    (out : List Complaint) (v : Verifier) (made : Received received b b')
    → 0 < soll
    → soll < 2 ^ 32
    → ArePauses pauses
    → Running a
    → waiting a ≡ []
    → drive rest_of_seq (after_write extd soll) clock_a pauses (first_round extd) a
      ≡ some ((ms, q), a')
    → requests a.vars.base a'.log ≡ requests a.vars.base a.log ++ logs
    → Tells bits ready
    → AreWaits waits
    → Running b
    → watch clock_b bits ready extd waits fresh b ≡ some ((got, out, goes_on v), b')
    → unread b ≡ []
    → unread b ++ received ≡ got ++ unread b'
    → Comes a.vars.base logs received b b' made
    → out ≡ []
test10_arrives clock_a clock_b extd soll pauses waits bits ready a a' b b' ms got received q logs
      out v made some_soll fits paused ha empty_a run_a asked tells w hb run_b empty_b order comes =
    let (len, loaded) =
      sent_stream clock_a extd soll pauses a a' ms q logs some_soll fits paused ha empty_a run_a
        asked in
    let all = Comes-MatchFrom a.vars.base extd 0 len logs received b b' made loaded comes in
    let (got0, out0, v0, b0, run0, kept, fine, conversely) =
      watch_complains clock_b bits ready extd waits b tells w hb in
    let (same_got, same_out) = same_checked (sym run_b ∙ run0) in
    let read_first : received ≡ got0 ++ unread b' =
      ap (λ (l : List Msg). l ++ received) (sym empty_b)
      ∙ order
      ∙ ap (λ (l : List Msg). l ++ unread b') same_got in
    same_out
    ∙ fine (MatchFrom-first extd 0 got0 (unread b') (subst (MatchFrom extd 0) read_first all))

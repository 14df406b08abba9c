-- ===== src/Tools/Test10/Checked.antt =====
-- What test10 of can_send.c sends through the driver passes the check of can_verify.c.
use c4l.Common.{
  ℕ, zero, suc, ◌+◌, ◌%◌, ◌^◌, ◌<◌, ◌≡◌, refl, ◌∙◌, sym, ap, ap₂, subst, arith, some, List, [], ◌∷◌,
  ◌++◌, map, Bool, length, length-append,
}
use c4l.Message.{Msg}
use c4l.Machine.{Access, St}
use c4l.Chip.Requests.{requests}
use c4l.Frame.{clamp_length}
use c4l.Isr.Transmit.{kept}
use c4l.Session.{Call}
use c4l.Session.Running.{Running, Loaded, waiting}
use c4l.Tools.Stream.{nth_msg, first_seq-nth_seq}
use c4l.Tools.Accepts.{MatchFrom}
use c4l.Tools.Arrives.{Arrives, Arrives-Matches}
use c4l.Tools.Verify.{fresh, verify_all}
use c4l.Tools.Detects.{verify_all_iff}
use c4l.Tools.Drive.{Next, drive, drive_runs, ArePauses}
use c4l.Tools.Test10.{Sender, first_round, rest_of_seq, after_write}
use c4l.Tools.Test10.Sends.{Amount, IsAt, runs_on}
use c4l.Tools.Test10.Stretch.{stretch, prefix-stretch}

clamp_length_small : (r : ℕ) → r < 9 → clamp_length r ≡ r
unfolding clamp_length
clamp_length_small r small = ground (arith, small)

kept-nth_msg : (extd : Bool) (n : ℕ) → kept (nth_msg extd n) ≡ nth_msg extd n
kept-nth_msg extd n =
    ap (λ (l : ℕ). record (nth_msg extd n) { length = l })
      (clamp_length_small (n % 9) (omega arith))

kept-stretch : (extd : Bool) (n len : ℕ) → map kept (stretch extd n len) ≡ stretch extd n len
kept-stretch extd n zero = refl
kept-stretch extd n (suc len) = ap₂ ◌∷◌ (kept-nth_msg extd n) (kept-stretch extd (suc n) len)

length-map : (f : Msg → Msg) (l : List Msg) → length (map f l) ≡ length l
length-map f [] = refl
length-map f (m ∷ l) = ap suc (length-map f l)

begins : (extd : Bool) → IsAt extd 0 0 (first_round extd)
begins extd = record {
  tm_is = first_seq-nth_seq extd;
  start_is = refl;
  seq_is = refl;
  count_is = refl;
  some_left = omega arith;
}

-- Of a stretch of the stream that was accepted, what was sent is the first part.
sent_first :
    (extd : Bool) (ms sent waits : List Msg)
    → ms ≡ stretch extd 0 (length ms)
    → map kept ms ≡ sent ++ waits
    → (sent ≡ stretch extd 0 (length sent)) × (length ms ≡ length sent + length waits)
sent_first extd ms sent waits is order = (
  prefix-stretch extd 0 (length ms) sent waits
      (sym (kept-stretch extd 0 (length ms)) ∙ ap (map kept) (sym is) ∙ order),
  sym (length-map kept ms) ∙ ap length order ∙ length-append sent waits,
)

itself : (m : Msg) → Arrives m m
itself m = record { id_same = refl; length_same = refl; bytes_same = λ j below. refl }

stretch-MatchFrom : (extd : Bool) (n len : ℕ) → MatchFrom extd n (stretch extd n len)
stretch-MatchFrom extd n zero = tt
stretch-MatchFrom extd n (suc len) = (
  Arrives-Matches extd n (nth_msg extd n) (itself (nth_msg extd n)),
  stretch-MatchFrom extd (suc n) len,
)

-- On a running device with nothing to send, and with any calls of the driver between the writes that write nothing and set no
-- bit rate of 0, the transmissions that test 10 for `soll` sequences requests are those of the messages `sent`, one for each,
-- with its frame in the transmit buffer. They are the first messages of the stream, and can_verify complains of none of them. With those that still wait they are all `9 * soll` messages if the test has come to its end,
-- and fewer if not.
pub test10_verified :
    (clock : List Access → ℕ × ℕ) (extd : Bool) (soll : ℕ) (pauses : List (List Call)) (st : St)
    → 0 < soll
    → soll < 2 ^ 32
    → ArePauses pauses
    → Running st
    → waiting st ≡ []
    → (ms : List Msg) × (q : Next Sender) × (st' : St) × (drive rest_of_seq
          (after_write extd soll)
          clock
          pauses
          (first_round extd)
          st
        ≡ some ((ms, q), st'))
      × ((logs : List (List Access)) × (sent : List Msg) × (requests st.vars.base st'.log
            ≡ requests st.vars.base st.log ++ logs)
          × Loaded st.vars.base logs sent
          × (sent ≡ stretch extd 0 (length sent))
          × ((verify_all extd sent fresh).1 ≡ [])
          × Amount soll (length sent + length (waiting st')) q)
test10_verified clock extd soll pauses st some_soll fits ok h empty =
    let (ms, q, st', run, h', c, runs, left) =
      drive_runs rest_of_seq (after_write extd soll) clock pauses (first_round extd) st ok h in
    let (is, amount) =
      runs_on extd soll fits 0 0 (first_round extd) ms q (begins extd) some_soll runs in
    let (first, size) =
      sent_first extd ms c.sent (map kept (waiting st')) is
        (ap (λ (l : List Msg). map kept (l ++ ms)) (sym empty) ∙ c.in_order) in
    (
      ms,
      q,
      st',
      run,
      (
        c.logs,
        c.sent,
        c.asked,
        c.loaded,
        first,
        (verify_all_iff extd c.sent).0
            (subst (MatchFrom extd 0) (sym first) (stretch-MatchFrom extd 0 (length c.sent))),
        subst (λ (n : ℕ). Amount soll n q) (omega (arith, size, length-map kept (waiting st')))
            amount,
      ),
    )

-- ===== src/Session/Life.antt =====
-- The messages of a device from its opening on.
use c4l.Common.{ℕ, ◌≤◌, ◌≡◌, ◌≢◌, ◌∙◌, sym, ap, subst, arith, List, ◌++◌, some, map}
use c4l.Message.{Msg}
use c4l.Machine.{Access, St, ◌>>=◌, >>=-some}
use c4l.Chip.Requests.{requests}
use c4l.Frame.Timing.{HasTimer, HasTimer-same}
use c4l.Isr.Transmit.{kept}
use c4l.Device.{Kernel, can_open}
use c4l.Device.Ready.{Grants, IsDrained, IsPresent, can_open_ready}
use c4l.Session.{Call, session}
use c4l.Session.Running.{waiting, Running, Loaded}
use c4l.Session.Order.{AllKeepRate, session_in_order}

-- After a successful open of a device with drained queues and a timer in reach, and any calls that set no bit rate of 0, the
-- transmissions requested since are those of the first messages that the writes accepted, in this order, one request for
-- each, with its frame in the transmit buffer; the other accepted messages still wait, up to the delay and the clamped length.
pub open-session_in_order :
    (k : Kernel) (rx tx : List Msg) (clock : List Access → ℕ × ℕ) (cs : List Call) (st : St)
    → Grants k rx tx
    → st.dev.minor ≤ 3
    → st.dev.isopen ≢ 1
    → st.vars.base ≢ 0
    → st.vars.baud ≢ 0
    → IsDrained st.dev.rxq
    → IsDrained st.dev.txq
    → IsPresent st
    → HasTimer st
    → AllKeepRate cs
    → (ms : List Msg) × (got : List Msg) × (st' : St) × ((can_open k >>= λ _. session clock cs) st
        ≡ some ((ms, got), st'))
      × ((logs : List (List Access)) × (sent : List Msg) × (requests st.vars.base st'.log
            ≡ requests st.vars.base st.log ++ logs)
          × Loaded st.vars.base logs sent
          × (map kept ms ≡ sent ++ map kept (waiting st')))
open-session_in_order k rx tx clock cs st g legal free board baud drained_rx drained_tx present
      has_timer keep =
    let (st1, run1, op, rx_empty, tx_empty, idle, count, irqs, work, (base, asked, timers)) =
      can_open_ready k rx tx st g legal free board baud drained_rx drained_tx present in
    let ready : Running st1 = record {
      opened = op;
      empty = λ is ne. tx_empty;
      moves = λ is e. absurd (omega (arith, idle, e));
      timer = HasTimer-same st st1 has_timer work timers;
    } in
    let (ms, got, st', run, (logs, sent, asked', loaded, order)) =
      session_in_order clock cs st1 ready keep in
    (
      ms,
      got,
      st',
      >>=-some (can_open k) (λ _. session clock cs) run1 ∙ run,
      (
        logs,
        sent,
        subst (λ (n : ℕ). requests n st'.log ≡ requests n st1.log ++ logs) base asked'
            ∙ ap (λ l. l ++ logs) asked,
        subst (λ (n : ℕ). Loaded n logs sent) base loaded,
        ap (λ l. map kept (l ++ ms)) (sym tx_empty) ∙ order,
      ),
    )

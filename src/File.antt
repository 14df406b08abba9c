-- ===== src/File.antt =====
-- read.c, write.c and select.c: the calls that move messages between the queues and the user.
-- `access_ok` is the argument `allowed`, and the user's buffer a list of messages.
pub mod Read
pub mod Write
pub mod Start
pub mod Idle
pub mod Split
pub mod Poll
use c4l.Common.{
  ℕ, zero, suc, ◌+◌, Option, none, some, List, [], ◌∷◌, Bool, true, false, ◌==◌, if◌then◌else◌,
  bit_or, slt32, ◌>>=?◌, length,
}
use c4l.Message.{Msg}
use c4l.Msgq.{MsgQ, qlen, qproduce, qconsume}
use c4l.Machine.{
  Access, Dev, Vars, St, M, pure, ◌>>=◌, ◌>>◌, with_dev, Errno, einval, Result, ok, err,
}
use c4l.Isr.{consume_tx, tx_low, delayed}

-- copymsgtouser. The message goes to one element of the buffer.
abbrev pub copymsgtouser : Msg → Option Msg → Option ((ℕ × Msg) × Option Msg)
copymsgtouser src dst = some ((1, src), some src)

unfoldable pub consume_rx : M (ℕ × Option Msg)
unfolding qconsume
consume_rx st = qconsume st.dev.rxq copymsgtouser none >>=? λ (r, q, out).
    some ((r, out), record st { dev = record st.dev { rxq = q } })

abbrev pub add_one : Option Msg → ℕ × List Msg → ℕ × List Msg
add_one none (n, l) = (n + 1, l)
add_one (some m) (n, l) = (n + 1, m ∷ l)

abbrev pub read_more : M (ℕ × List Msg) → ℕ × Option Msg → M (ℕ × List Msg)
read_more rest (zero, out) = pure (0, [])
read_more rest (suc _, out) = rest >>= λ l. pure (add_one out l)

-- The loop of can_read: the number of messages, and the messages.
unfoldable pub read_loop : ℕ → M (ℕ × List Msg)
unfolding consume_rx
read_loop zero = pure (0, [])
read_loop (suc count) = consume_rx >>= read_more (read_loop count)

unfoldable pub can_read : Bool → ℕ → M (Result × List Msg)
unfolding read_loop
can_read allowed count =
    if allowed
    then (read_loop count >>= λ (written, out). pure (ok written, out))
    else pure (err einval, [])

-- copyusermsg.
abbrev pub copyusermsg : Msg → Msg → St → Option (Msg × St)
copyusermsg src dst st = some (src, st)

unfoldable pub produce_tx : Msg → M ℕ
unfolding qproduce
produce_tx m st = qproduce st.dev.txq (copyusermsg m) st >>=? λ (r, q, st').
    some (r, record st' { dev = record st'.dev { txq = q } })

-- A queue that has become idle is started again.
unfoldable pub start_if_idle : M (Unit {0})
unfolding consume_tx
start_if_idle st =
    if st.dev.txq.idle == 0
    then some (tt, st)
    else (consume_tx >>= λ _. pure tt)
        (record st { dev = record st.dev { txq = record st.dev.txq { idle = 0 } } })

unfoldable pub write_more : M ℕ → ℕ → M ℕ
unfolding start_if_idle
write_more rest zero = pure 0
write_more rest (suc _) = start_if_idle >>= λ _. rest >>= λ written. pure (written + 1)

unfoldable pub write_loop : List Msg → M ℕ
unfolding produce_tx write_more
write_loop [] = pure 0
write_loop (m ∷ ms) = produce_tx m >>= write_more (write_loop ms)

unfoldable pub can_write : Bool → List Msg → M Result
unfolding write_loop
can_write allowed buffer =
    if allowed then (write_loop buffer >>= λ written. pure (ok written)) else pure (err einval)

-- The bits of poll.h that can_select returns: POLLIN | POLLRDNORM, and POLLOUT | POLLWRNORM.
pub record PollBits : Type 0 where
  pub readable : ℕ
  pub writable : ℕ

unfoldable pub can_select : PollBits → M ℕ
unfolding qlen tx_low
can_select bits st = tx_low st.dev.txq >>=? λ low.
    let input : ℕ = if slt32 0 (qlen st.dev.rxq) then bits.readable else 0 in
    some (if low then bit_or input bits.writable else input, st)

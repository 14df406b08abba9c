-- ===== src/Machine.antt =====
-- The state of one channel of the driver, and how the driver's code runs on it.
-- `Vars` has the element `[minor]` of each array of sysctl.c, `Dev` is `struct Dev` of defs.h, and
-- `Timer` an element of the array `dly` of linux_2.6.c. The controller is not modelled: `env`
-- answers each port read, from all accesses made so far, so that every behaviour of it is one `env`.
use c4l.Common.{ℕ, Bool, ◌≡◌, Option, none, some, List, ◌∷◌, u8}
use c4l.Msgq.{MsgQ}

-- A port access and its byte, `inb` or `outb`.
pub data Access : Type 0 where
  input : ℕ → ℕ → Access
  output : ℕ → ℕ → Access

pub record Vars : Type 0 where
  pub io_model : ℕ
  pub irq : ℕ
  pub base : ℕ
  pub baud : ℕ
  pub acc_code : ℕ
  pub acc_mask : ℕ
  pub timeout : ℕ
  pub outc : ℕ
  pub tx_err : ℕ
  pub rx_err : ℕ
  pub overrun : ℕ

-- `wq` counts the calls of `wake_up_interruptible` since the queue was initialised, and
-- `delayedwork` is the index in `dly` of the timer that it points at.
pub record Dev : Type 0 where
  pub minor : ℕ
  pub isopen : ℕ
  pub can_range : ℕ
  pub requested_irq : ℕ
  pub wq : ℕ
  pub rxq : MsgQ
  pub txq : MsgQ
  pub txinprogress : ℕ
  pub rxstatus : ℕ
  pub delayedwork : Option ℕ

-- `nsec` is the time with which the timer was started last, `target` the device of its work, and it is `armed` from then on
-- until it expires.
pub record Timer : Type 0 where
  pub nsec : ℕ
  pub target : ℕ
  pub armed : Bool

-- `log` has the newest access first. `idly` counts the timers of `dly` in use.
pub record St : Type 0 where
  pub vars : Vars
  pub dev : Dev
  pub log : List Access
  pub env : List Access → ℕ → ℕ
  pub idly : ℕ
  pub dly : List Timer

-- The driver's code: `none` is a fault of the machine.
abbrev pub M : Type 0 → Type 0
M A = St → Option (A × St)

abbrev pub pure : {A : Type 0} → A → M A
pure a st = some (a, st)

infixl 5 ◌>>=◌ ◌>>◌
abbrev pub ◌>>=◌ : {A B : Type 0} → M A → (A → M B) → M B
◌>>=◌ m f st = elim (m st) [ none ↦ none | some (a, st') ↦ f a st' ]

abbrev pub ◌>>◌ : {A B : Type 0} → M A → M B → M B
m >> k = m >>= λ _. k

abbrev pub state : M St
state st = some (st, st)

abbrev pub modify : (St → St) → M (Unit {0})
modify f st = some (tt, f st)

abbrev pub with_dev : (Dev → Dev) → M (Unit {0})
with_dev f = modify (λ st. record st { dev = f st.dev })

abbrev pub with_vars : (Vars → Vars) → M (Unit {0})
with_vars f = modify (λ st. record st { vars = f st.vars })

unfoldable pub inb : ℕ → M ℕ
inb port st = let v = u8 (st.env st.log port) in some (v, record st { log = input port v ∷ st.log })

-- `outb` takes an `unsigned char`.
unfoldable pub outb : ℕ → ℕ → M (Unit {0})
outb v port st = some (tt, record st { log = output port (u8 v) ∷ st.log })

-- A part that has run without a fault, and what comes after it.
pub >>=-some :
    {A B : Type 0} (m : M A) (f : A → M B) {a : A} {st st' : St}
    → m st ≡ some (a, st')
    → (m >>= f) st ≡ f a st'
>>=-some m f e = rw (e, ◌>>=◌)

-- The negative results of the file operations, by their names in errno.h.
pub data Errno : Type 0 where
  einval : Errno
  ebusy : Errno
  enxio : Errno
  enomem : Errno
  ebadf : Errno
  eio : Errno

-- A result of a file operation: a number, or an error.
pub data Result : Type 0 where
  ok : ℕ → Result
  err : Errno → Result

-- ===== src/Msgq/Valid.antt =====
-- The representation invariant of a ring of 2 ^ k slots, and the messages that it holds.
use native.Mathlib.Nat.{add-mod, mod-eq_of_lt, mod-lt}
use native.Mathlib.Nat.{mod-eq-sub-mod}
use native.Mathlib.Decide.{dec_lt}
use c4l.Common.{
  ℕ, zero, suc, ◌+◌, ◌-◌, ◌^◌, ◌%◌, ◌≤◌, ◌<◌, ◌≡◌, ◌≢◌, refl, ap, ap₂, ◌∙◌, sym, arith, List, [],
  ◌∷◌, ◌++◌, length, get_or, set, get_or-set_self, get_or-set_ne, sub32,
}
use c4l.Message.{Msg, zero_msg}
use c4l.Msgq.{MsgQ, qlen}

-- No counter is outside its range, the array has the 2 ^ k slots of the mask, and no more
-- messages are waiting than there are slots.
pub record IsValid (k : ℕ) (q : MsgQ) : Type 0 where
  pub small : k ≤ 30
  pub mask_of : q.mask ≡ 2 ^ k - 1
  pub slots : length q.msgs ≡ 2 ^ k
  pub produced_in : q.produced < 2 ^ 32
  pub consumed_in : q.consumed < 2 ^ 32
  pub fits : sub32 q.produced q.consumed ≤ 2 ^ k

-- The `n` messages from counter `c` on.
abbrev pub window : List Msg → ℕ → ℕ → ℕ → List Msg
window ms size c zero = []
window ms size c (suc n) = get_or ms (c % size) zero_msg ∷ window ms size (c + 1) n

abbrev pub contents : ℕ → MsgQ → List Msg
contents k q = window q.msgs (2 ^ k) q.consumed (sub32 q.produced q.consumed)

pub length-window : (ms : List Msg) (size c n : ℕ) → length (window ms size c n) ≡ n
length-window ms size c zero = refl
length-window ms size c (suc n) = ap suc (length-window ms size (c + 1) n)

pub length-contents : (k : ℕ) (q : MsgQ) → length (contents k q) ≡ qlen q
unfolding qlen
length-contents k q = length-window q.msgs (2 ^ k) q.consumed (sub32 q.produced q.consumed)

suc-mod_cong : (size c d : ℕ) → c % size ≡ d % size → (c + 1) % size ≡ (d + 1) % size
suc-mod_cong size c d e =
    add-mod c 1 size ∙ ap (λ t. (t + 1 % size) % size) e ∙ sym (add-mod d 1 size)

-- A window depends on where it starts only up to the number of slots.
pub window_cong :
    (ms : List Msg) (size c d n : ℕ) → c % size ≡ d % size → window ms size c n ≡ window ms size d n
window_cong ms size c d zero e = refl
window_cong ms size c d (suc n) e =
    ap₂ ◌∷◌ (ap (λ i. get_or ms i zero_msg) e)
      (window_cong ms size (c + 1) (d + 1) n (suc-mod_cong size c d e))

pub window_of_ne_zero :
    (ms : List Msg) (size c n : ℕ)
    → n ≢ 0
    → window ms size c n ≡ get_or ms (c % size) zero_msg ∷ window ms size (c + 1) (n - 1)
window_of_ne_zero ms size c zero h = absurd (h refl)
window_of_ne_zero ms size c (suc n) h = ap (λ t. window ms size c (suc t)) (omega arith)

-- Writing to a slot outside a window leaves the window alone.
pub window-set_ne :
    (ms : List Msg) (size c n i : ℕ) (m : Msg)
    → ((j : ℕ) → j < n → i ≢ (c + j) % size)
    → window (set ms i m) size c n ≡ window ms size c n
window-set_ne ms size c zero i m h = refl
window-set_ne ms size c (suc n) i m h =
    ap₂ ◌∷◌ (get_or-set_ne ms m zero_msg (λ e. h 0 (omega arith) (e ∙ here)))
      (window-set_ne ms size (c + 1) n i m (λ j lt e. h (suc j) (omega arith) (e ∙ shift j)))
  where
    here : c % size ≡ (c + 0) % size
    here = ap (λ t. t % size) (omega arith)

    shift : (j : ℕ) → (c + 1 + j) % size ≡ (c + suc j) % size
    shift j = ap (λ t. t % size) (omega arith)

-- Fewer than `size` counts after `a` the slot is another one.
pub add-mod-ne : (size a d : ℕ) → 0 < d → d < size → (a + d) % size ≢ a % size
add-mod-ne size a d pos lt e = go (a % size) (mod-lt a (omega arith)) (reduced ∙ e)
  where
    reduced : (a % size + d) % size ≡ (a + d) % size
    reduced = ap (λ t. (a % size + t) % size) (sym (mod-eq_of_lt lt)) ∙ sym (add-mod a d size)

    go : (r : ℕ) → r < size → (r + d) % size ≢ r
    go r in_range h = elim (dec_lt (r + d) size) [
      | yes p ↦ omega (arith, mod-eq_of_lt p)
      | no p ↦ omega (
        arith,
        mod-eq-sub-mod {n = r + d} {m = size} (omega arith),
        mod-eq_of_lt {n = r + d - size} {m = size} (omega arith),
      )
    ]

-- Filling the slot after a window makes the window longer by that message.
pub window-set_end :
    (ms : List Msg) (size c n i : ℕ) (m : Msg)
    → length ms ≡ size
    → n < size
    → i ≡ (c + n) % size
    → window (set ms i m) size c (suc n) ≡ window ms size c n ++ m ∷ []
window-set_end ms size c zero i m len lt e =
    ap (λ x. x ∷ []) (rw (← here) (get_or-set_self ms i m zero_msg in_range))
  where
    here : i ≡ c % size
    here = e ∙ ap (λ t. t % size) (omega arith)

    in_range : i < length ms
    in_range = rw (here, len) (mod-lt c lt)
window-set_end ms size c (suc n) i m len lt e =
    ap₂ ◌∷◌ (get_or-set_ne ms m zero_msg other)
      (window-set_end ms size (c + 1) n i m len (omega arith) (e ∙ shift))
  where
    other : i ≢ c % size
    other h = add-mod-ne size c (suc n) (omega arith) lt (sym e ∙ h)

    shift : (c + suc n) % size ≡ (c + 1 + n) % size
    shift = ap (λ t. t % size) (omega arith)

-- Writing back to the first slot of a window replaces its first message.
pub window-set_start :
    (ms : List Msg) (size c n : ℕ) (m : Msg)
    → length ms ≡ size
    → n < size
    → window (set ms (c % size) m) size c (suc n) ≡ m ∷ window ms size (c + 1) n
window-set_start ms size c n m len lt =
    ap₂ ◌∷◌ (get_or-set_self ms (c % size) m zero_msg (rw len (mod-lt c (omega arith)))) (
      window-set_ne ms size (c + 1) n (c % size) m
        (λ j below e. add-mod-ne size c (suc j) (omega arith) (omega arith) (shift j ∙ sym e)))
  where
    shift : (j : ℕ) → (c + suc j) % size ≡ (c + 1 + j) % size
    shift j = ap (λ t. t % size) (omega arith)

-- ===== src/Session/Turns.antt =====
-- The turn of a message keeps the transmit queue running, and carries it in order.
use c4l.Common.{
  ℕ, ◌≡◌, inl, inr, refl, ◌∙◌, sym, ap, arith, [], ◌∷◌, map, Bool, true, false, has, Option,
}
use mathlib.Core.List.{append-nil}
use c4l.Message.{Msg, msg_ext}
use c4l.Machine.{St}
use c4l.Chip.Requests.{requests}
use c4l.Frame.Sent.{Holds}
use c4l.Frame.Delay.{clamped, clamp_length-clamp_length}
use c4l.Frame.Timing.{HasTimer, HasTimer-same}
use c4l.Isr.Safe.{IsOpen}
use c4l.Isr.Transmit.{Turn, idles, sends, keeps, kept}
use c4l.File.Idle.{IdleIsEmpty, Turn-IdleIsEmpty}
use c4l.Session.Running.{waiting, Moves, Loose, Carries}

-- A kept message is sent as it is, and its frame is that of the message.
pub kept-kept : (m : Msg) → kept (kept m) ≡ kept m
kept-kept m =
    ap (λ (n : ℕ). record m { length = n; tv_usec = 0 }) (clamp_length-clamp_length m.length)

Holds-kept :
    (e : Bool) (m : Msg) (reg : ℕ → Option ℕ) → Holds e (clamped m) reg → Holds e (kept m) reg
Holds-kept true m reg h = h
Holds-kept false m reg h = h

pub Turn-Loose :
    {w v : Bool} {a b : St}
    → (w ≡ true → IdleIsEmpty a)
    → HasTimer a
    → Turn a b
    → IsOpen b
    → Loose w v b
Turn-Loose {w} {v} {a} {b} empty has_timer t op = record {
  opened = op;
  empty = λ is. Turn-IdleIsEmpty t (empty is);
  moves = λ is. moves t;
  timer = timer t;
}
  where
    moves : Turn a b → b.dev.txq.idle ≡ 0 → Moves b
    moves (idles before after i l p same) e = absurd (omega (arith, i, e))
    moves (sends x rest before after held p i asked same) e = inl p
    moves (keeps x rest before after l p i owns) e =
        inr (kept x, rest, after, refl, (owns has_timer).0)

    timer : Turn a b → HasTimer b
    timer (idles before after i l p (work, timers)) = HasTimer-same a b has_timer work timers
    timer (sends x rest before after held p i asked (work, timers)) =
        HasTimer-same a b has_timer work timers
    timer (keeps x rest before after l p i owns) = (owns has_timer).1

pub Turn-Carries : {a b : St} → b.vars.base ≡ a.vars.base → Turn a b → Carries [] a b
Turn-Carries {a} {b} base (idles before after i l p same) = record {
  logs = [];
  sent = [];
  base_same = base;
  asked = ap (requests a.vars.base) l ∙ sym (append-nil _);
  loaded = tt;
  in_order = ap (map kept) (append-nil (waiting a) ∙ before ∙ sym after);
}
Turn-Carries {a} {b} base (sends x rest before after held p i asked same) = record {
  logs = b.log ∷ [];
  sent = kept x ∷ [];
  base_same = base;
  asked = asked;
  loaded = (Holds-kept (has x.flags msg_ext) x _ held, tt);
  in_order =
      ap (map kept) (append-nil (waiting a) ∙ before) ∙ ap (λ l. kept x ∷ map kept l) (sym after);
}
Turn-Carries {a} {b} base (keeps x rest before after l p i owns) = record {
  logs = [];
  sent = [];
  base_same = base;
  asked = ap (requests a.vars.base) l ∙ sym (append-nil _);
  loaded = tt;
  in_order =
      ap (map kept) (append-nil (waiting a) ∙ before)
      ∙ ap (λ m. m ∷ map kept rest) (sym (kept-kept x))
      ∙ ap (map kept) (sym after);
}

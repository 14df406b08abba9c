-- ===== src/Filter.antt =====
-- The message filter of util.c, with CAN_USE_FILTER and CAN_RTR_CONFIG, for one device. Nothing that the driver does reads it.
pub mod Memory
pub mod Responses
use c4l.Common.{
  ℕ, ◌-◌, ◌^◌, Option, none, some, List, [], ◌∷◌, map, ◌==◌, if◌then◌else◌, ltb, leb, get_elem?,
  set, ◌>>=?◌,
}

-- What the filter knows of an identifier. `rtr_response` is the address of a message, or none for NULL.
pub record Entry : Type 0 where
  pub enable : ℕ
  pub timestamp : ℕ
  pub signal : ℕ
  pub rtr_response : Option ℕ

-- `given` and `freed` are the addresses that `kmalloc` returned and that `kfree` was called with, the last one first.
pub record MsgFilter : Type 0 where
  pub use_it : ℕ
  pub signo : List ℕ
  pub filter : List Entry
  pub given : List ℕ
  pub freed : List ℕ

-- An address that may be NULL, before others.
abbrev pub with_response : Option ℕ → List ℕ → List ℕ
with_response none l = l
with_response (some p) l = p ∷ l

abbrev pub no_response : Entry → Entry
no_response e = record e { rtr_response = none }

unfoldable pub filter_init : MsgFilter → MsgFilter
filter_init f = record f {
  use_it = 0;
  signo = set (set (set f.signo 0 0) 1 0) 2 0;
  filter = map no_response f.filter;
}

-- The loop of Can_FilterCleanup: what was freed then.
unfoldable pub free_responses : List Entry → List ℕ → List ℕ
free_responses [] freed = freed
free_responses (e ∷ es) freed = free_responses es (with_response e.rtr_response freed)

unfoldable pub filter_cleanup : MsgFilter → MsgFilter
unfolding free_responses
filter_cleanup f = record f {
  filter = map no_response f.filter;
  freed = free_responses f.filter f.freed;
}

-- Whether a number is not 0.
abbrev pub truth : ℕ → ℕ
truth n = if n == 0 then 0 else 1

unfoldable pub filter_on_off : ℕ → MsgFilter → MsgFilter
filter_on_off on f = record f { use_it = truth on }

-- A change of one entry; an index outside the array is a fault.
abbrev pub at_entry : ℕ → (Entry → Entry) → MsgFilter → Option MsgFilter
at_entry i change f =
    get_elem? f.filter i >>=? λ e. some (record f { filter = set f.filter i (change e) })

unfoldable pub filter_message : ℕ → ℕ → MsgFilter → Option MsgFilter
filter_message message enable = at_entry message (λ e. record e { enable = truth enable })

unfoldable pub filter_timestamp : ℕ → ℕ → MsgFilter → Option MsgFilter
filter_timestamp message stamp = at_entry message (λ e. record e { timestamp = truth stamp })

unfoldable pub filter_signal : ℕ → ℕ → MsgFilter → Option MsgFilter
filter_signal id signal f =
    if leb signal 3 then at_entry id (λ e. record e { signal = signal }) f else some f

unfoldable pub filter_sig_no : ℕ → ℕ → MsgFilter → MsgFilter
filter_sig_no signo signal f =
    if ltb signal 3 then record f { signo = set f.signo signal signo } else f

-- `mem` is what `kmalloc` returns. The message itself is not modelled. -1 is the pattern 2 ^ 32 - 1.
unfoldable pub config_rtr : ℕ → Option ℕ → MsgFilter → Option (ℕ × MsgFilter)
config_rtr message none f = some (2 ^ 32 - 1, f)
config_rtr message (some p) f =
    at_entry message (λ e. record e { rtr_response = some p }) (record f { given = p ∷ f.given })
    >>=? λ f'. some (1, f')

unfoldable pub unconfig_rtr : ℕ → MsgFilter → Option (ℕ × MsgFilter)
unconfig_rtr message f = get_elem? f.filter message >>=? λ e.
    at_entry message no_response (record f { freed = with_response e.rtr_response f.freed })
    >>=? λ f'. some (1, f')

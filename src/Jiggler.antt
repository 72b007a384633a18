-- ===== src/Jiggler.antt =====
-- app/src/hardware/jiggler.rs: the mouse jiggler. A loop is known by the number of its cancellation token;
-- times are milliseconds, and the clock is an argument, as are the nanoseconds that serve as random numbers.
-- The jitter, which delays a round by a floating point fraction of the interval, is left out.
pub mod Loops
pub mod Activity
mod Runs
use rustkvm.Common.{
  ℕ, zero, suc, ◌+◌, ◌-◌, ◌*◌, ◌%◌, max, List, [], ◌∷◌, ◌++◌, Option, none, some, Bool, true, false,
  not, ◌&&◌, contains, filter, if◌then◌else◌, ltb, leb, ◌==◌,
}
use rustkvm.Common.Int.{ℤ, pos, negsuc}
use rustkvm.Common.Text.{codes, strip_prefix, trim_start, is_whitespace, between}
use rustkvm.Config.{Text, Config}
use rustkvm.Config.Manager.{Manager, update}
use rustkvm.Hid.Device.{Hid, rel_mouse_report}

pub record JigglerConfig : Type 0 where
  pub inactivity_limit_seconds : ℤ
  pub jitter_percentage : ℤ
  pub schedule_cron_tab : Text
  pub timezone : Option Text

abbrev pub default_jiggler_config : JigglerConfig
default_jiggler_config = record {
  inactivity_limit_seconds = pos 60;
  jitter_percentage = pos 25;
  schedule_cron_tab = codes "0 * * * * *";
  timezone = some (codes "UTC");
}

-- The text from the first `TZ=` on.
abbrev pub from_tz : Text → Option Text
from_tz [] = none
from_tz (c ∷ s) =
    let rest = from_tz s in
    elim (strip_prefix (codes "TZ=") (c ∷ s)) [ none ↦ rest | some _ ↦ some (c ∷ s) ]

-- What stands behind the first space.
abbrev pub after_space : Text → Option Text
after_space [] = none
after_space (c ∷ s) = let rest = after_space s in if c == b' ' then some s else rest

abbrev pub word : Text → Text
word [] = []
word (c ∷ s) = let rest = word s in if is_whitespace c then [] else c ∷ rest

-- `split_whitespace().next().unwrap_or("*")`.
unfoldable pub first_field : Text → Text
first_field s = elim (word (trim_start s)) [ [] ↦ codes "*" | c ∷ w ↦ c ∷ w ]

-- The decimal digits of a `u64` behind `acc`.
abbrev pub parse_u64_digits : ℕ → Text → Option ℕ
parse_u64_digits acc [] = some acc
parse_u64_digits acc (c ∷ s) =
    let acc' = acc * 10 + (c - b'0') in
    let rest = parse_u64_digits acc' s in
    if between b'0' c b'9' && leb acc' 18446744073709551615 then rest else none

-- `u64::from_str`: a sign `+` may stand before the digits, and there is one digit at least.
unfoldable pub parse_u64 : Text → Option ℕ
parse_u64 [] = none
parse_u64 (c ∷ []) = if c == b'+' then none else parse_u64_digits 0 (c ∷ [])
parse_u64 (c ∷ d ∷ s) =
    if c == b'+' then parse_u64_digits 0 (d ∷ s) else parse_u64_digits 0 (c ∷ d ∷ s)

abbrev pub without_timezone : Text → Text
without_timezone cron_tab = elim (from_tz cron_tab) [
  | none ↦ cron_tab
  | some s ↦ elim (after_space s) [ none ↦ cron_tab | some rest ↦ rest ]
]

-- `u64::from_str(stripped).unwrap_or(60).max(1)`.
abbrev pub at_least_one : Option ℕ → ℕ
at_least_one none = max 60 1
at_least_one (some secs) = max secs 1

-- The seconds of a field without its prefix `*/`, and 60 for a field that does not have it.
abbrev pub field_secs : Option Text → ℕ
field_secs none = 60
field_secs (some stripped) = at_least_one (parse_u64 stripped)

-- The interval of the loop in seconds.
unfoldable pub parse_cron_interval : Text → ℕ
unfolding first_field parse_u64
parse_cron_interval cron_tab =
    field_secs (strip_prefix (codes "*/") (first_field (without_timezone cron_tab)))

-- `simple_random(3)`, and its sign from a second reading of the clock.
unfoldable pub offset : ℕ → ℕ → ℤ
offset ns sign_ns = if sign_ns % 2 == 0 then negsuc ((ns % 6) % 3) else pos ((ns % 6) % 3 + 1)

-- `do_jiggle` on the device of the USB manager, if there is one.
unfoldable pub do_jiggle : ℕ → ℤ → ℤ → Option Hid → Option Hid
do_jiggle now dx dy none = none
do_jiggle now dx dy (some h) = some (rel_mouse_report now h dx dy 0).0

-- `inactivity_limit_seconds as u64`, as milliseconds.
unfoldable pub inactivity_limit : JigglerConfig → ℕ
inactivity_limit config = elim config.inactivity_limit_seconds [
  | pos n ↦ n * 1000
  | negsuc n ↦ (18446744073709551616 - (n + 1)) * 1000
]

-- Whether the last input is longer ago than the limit; without a device it is.
abbrev pub is_inactive : ℕ → ℕ → Option Hid → Bool
is_inactive limit now none = true
is_inactive limit now (some h) = ltb limit (now - h.last_user_input)

-- A round of `run_jiggler_loop`.
unfoldable pub run_tick : Bool → JigglerConfig → ℕ → ℤ → ℤ → Option Hid → Option Hid
unfolding do_jiggle inactivity_limit
run_tick enabled config now dx dy hid =
    if not enabled
    then hid
    else if is_inactive (inactivity_limit config) now hid
    then do_jiggle now dx dy hid
    else hid

unfoldable pub set_jiggler_state : (ℕ → Bool) → Bool → Manager → Manager × Bool
set_jiggler_state saves enabled m = update saves (λ c. record c { jiggler_enabled = enabled }) m

-- The statics, the tokens made and cancelled, and the loops spawned.
pub record Jiggler : Type 0 where
  pub config : Option JigglerConfig
  pub cancel : Option ℕ
  pub tokens : ℕ
  pub cancelled : List ℕ
  pub loops : List ℕ

unfoldable pub get_jiggler_config : Jiggler → Jiggler × JigglerConfig
get_jiggler_config s = elim s.config [
  | none ↦ (record s { config = some default_jiggler_config }, default_jiggler_config)
  | some config ↦ (s, config)
]

-- What was taken from `JIGGLER_CANCEL` is cancelled.
abbrev pub cancel_token : Option ℕ → Jiggler → Jiggler
cancel_token none s = s
cancel_token (some t) s = record s { cancel = none; cancelled = t ∷ s.cancelled }

unfoldable pub cancel_jiggler_cron : Jiggler → Jiggler
cancel_jiggler_cron s = cancel_token s.cancel s

-- `run_jiggler_cron_tab` behind its cancel.
unfoldable pub spawn_loop : Jiggler → Jiggler
spawn_loop s = record s {
  cancel = some s.tokens;
  tokens = s.tokens + 1;
  loops = s.loops ++ (s.tokens ∷ []);
}

unfoldable pub run_jiggler_cron_tab : Jiggler → Jiggler
unfolding cancel_jiggler_cron spawn_loop
run_jiggler_cron_tab s = spawn_loop (cancel_jiggler_cron s)

unfoldable pub set_jiggler_config : JigglerConfig → Jiggler → Jiggler
unfolding run_jiggler_cron_tab cancel_jiggler_cron
set_jiggler_config config s =
    run_jiggler_cron_tab (cancel_jiggler_cron (record s { config = some config }))

-- A loop breaks when its token is cancelled.
unfoldable pub running : Jiggler → List ℕ
running s = filter (λ t. not (contains s.cancelled t)) s.loops

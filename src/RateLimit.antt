-- ===== src/RateLimit.antt =====
-- app/src/web/ratelimit.rs: the limiter of password attempts. Instants and durations are counted in
-- milliseconds; the map from addresses to entries is a function.
pub mod Bounds
pub mod Lock
pub mod Sweep
use rustkvm.Common.{
  ℕ, ◌+◌, ◌-◌, ◌*◌, ◌/◌, ◌%◌, ◌^◌, ◌≡◌, Bool, true, false, not, ◌&&◌, ◌||◌, if◌then◌else◌, ltb, leb,
  ◌==◌, Option, none, some, min,
}

-- `std::net::IpAddr`, its bits as a number.
pub data IpAddr : Type 0 where
  v4 : ℕ → IpAddr
  v6 : ℕ → IpAddr

abbrev pub ip_eq : IpAddr → IpAddr → Bool
ip_eq (v4 a) (v4 b) = a == b
ip_eq (v6 a) (v6 b) = a == b
ip_eq _ _ = false

abbrev pub max_attempts : ℕ
max_attempts = 5

abbrev pub base_window : ℕ
base_window = 900000

abbrev pub max_backoff_level : ℕ
max_backoff_level = 3

abbrev pub cleanup_interval : ℕ
cleanup_interval = 300000

pub record Entry : Type 0 where
  pub attempts : ℕ
  pub window_start : ℕ
  pub backoff_level : ℕ
  pub locked_until : Option ℕ

pub record State : Type 0 where
  pub entries : IpAddr → Option Entry
  pub last_cleanup : Option ℕ

unfoldable pub new : State
new = record { entries = λ _. none; last_cleanup = none }

abbrev pub update : (IpAddr → Option Entry) → IpAddr → Option Entry → IpAddr → Option Entry
update m ip e = λ j. if ip_eq j ip then e else m j

unfoldable pub window_duration : ℕ → ℕ
window_duration backoff_level = base_window * 2 ^ min backoff_level max_backoff_level

-- `locked_until.is_some_and(|t| now < t)`.
abbrev pub is_locked : Option ℕ → ℕ → Bool
is_locked none now = false
is_locked (some t) now = ltb now t

abbrev pub cleanup_due : Option ℕ → ℕ → Bool
cleanup_due none now = true
cleanup_due (some prev) now = leb cleanup_interval (now - prev)

-- What `retain` keeps.
unfoldable pub is_live : Entry → ℕ → Bool
is_live entry now =
    is_locked entry.locked_until now
    || leb (now - entry.window_start) (window_duration entry.backoff_level)

unfoldable pub retain_live : ℕ → Option Entry → Option Entry
retain_live now none = none
retain_live now (some entry) = if is_live entry now then some entry else none

abbrev pub retain : ℕ → State → State
retain now state = record {
  entries = λ ip. retain_live now (state.entries ip);
  last_cleanup = some now;
}

unfoldable pub maybe_cleanup : ℕ → State → State
maybe_cleanup now state = if cleanup_due state.last_cleanup now then retain now state else state

-- `Result<(), u64>`: `some` carries the seconds after which to retry. Past the lock the source
-- tests the window and answers the same on both sides.
abbrev pub check_window : ℕ → Entry → Option ℕ
check_window now entry =
    if ltb (window_duration entry.backoff_level) (now - entry.window_start) then none else none

abbrev pub check_lock : ℕ → Entry → Option ℕ → Option ℕ
check_lock now entry none = check_window now entry
check_lock now entry (some locked_until) =
    if ltb now locked_until then some ((locked_until - now) / 1000 + 1) else check_window now entry

unfoldable pub check_entry : ℕ → Option Entry → Option ℕ
check_entry now none = none
check_entry now (some entry) = check_lock now entry entry.locked_until

unfoldable pub is_allowed : ℕ → IpAddr → State → State × Option ℕ
is_allowed now ip state0 =
    let state = maybe_cleanup now state0 in (state, check_entry now (state.entries ip))

abbrev pub fresh_entry : ℕ → Entry
fresh_entry now = record {
  attempts = 0;
  window_start = now;
  backoff_level = 0;
  locked_until = none;
}

-- `entry(ip).or_insert(…)`.
abbrev pub or_insert : Option Entry → Entry → Entry
or_insert none e = e
or_insert (some entry) e = entry

-- `attempts += 1` on a `u32`.
abbrev pub next_attempts : ℕ → ℕ
next_attempts attempts = (attempts + 1) % 4294967296

-- The body of `record_failure` on the entry.
unfoldable pub fail_entry : ℕ → Entry → Entry
fail_entry now entry =
    if ltb (window_duration entry.backoff_level) (now - entry.window_start)
    then record {
      attempts = 1;
      window_start = now;
      backoff_level =
          if ltb 0 entry.backoff_level || leb max_attempts entry.attempts
          then min (entry.backoff_level + 1) max_backoff_level
          else entry.backoff_level;
      locked_until = none;
    }
    else if leb max_attempts (next_attempts entry.attempts)
    then record entry {
      attempts = next_attempts entry.attempts;
      locked_until = some (now + window_duration entry.backoff_level);
    }
    else record entry { attempts = next_attempts entry.attempts }

unfoldable pub record_failure : ℕ → IpAddr → State → State
record_failure now ip state0 =
    let state = maybe_cleanup now state0 in
    let entry = or_insert (state.entries ip) (fresh_entry now) in
    record state { entries = update state.entries ip (some (fail_entry now entry)) }

unfoldable pub record_success : IpAddr → State → State
record_success ip state = record state { entries = update state.entries ip none }

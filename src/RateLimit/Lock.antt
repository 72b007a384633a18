-- ===== src/RateLimit/Lock.antt =====
-- app/src/web/ratelimit.rs: how the answers follow the failures.
use rustkvm.Common.{
  arith, ap, ◌∙◌, Bool-cases, inl, inr, List, [], ◌∷◌, ℕ, ◌+◌, ◌-◌, ◌/◌, ◌≤◌, ◌<◌, ◌≡◌, true, false,
  ltb, leb, Option, none, some, min, if◌then◌else◌, ◌||◌,
}
use rustkvm.RateLimit.Bounds.{check_window-none}
use rustkvm.RateLimit.{
  IpAddr, Entry, State, window_duration, is_live, check_entry, is_allowed, fail_entry,
  record_failure, cleanup_due, base_window, next_attempts,
}
use rustkvm.RateLimit.Sweep.{
  live_cleanup, is_allowed_check, entries-record_failure, fail_entry_fresh, restarted,
  fail_entry_dead, missing_cleanup, dead_cleanup,
}

-- The failures of one address, one after the other.
abbrev pub record_failures : IpAddr → List ℕ → State → State
record_failures ip [] s = s
record_failures ip (now ∷ nows) s = record_failures ip nows (record_failure now ip s)

pub record_failure_first :
    (now : ℕ) (ip : IpAddr) (s : State)
    → s.entries ip ≡ none
    → (record_failure now ip s).entries ip ≡ some (restarted now 0)
record_failure_first now ip s h =
    rw (entries-record_failure now ip s, missing_cleanup now s ip h, fail_entry_fresh now)

record_failure_live :
    (now : ℕ) (ip : IpAddr) (s : State) (e : Entry)
    → s.entries ip ≡ some e
    → is_live e now ≡ true
    → (record_failure now ip s).entries ip ≡ some (fail_entry now e)
record_failure_live now ip s e h k =
    rw (entries-record_failure now ip s, live_cleanup now s ip e h k)

-- A failure of an address whose entry has run out starts a new window with one attempt. The level of the
-- lock is kept or raised only where no sweep is due; where one is due, it is back to 0, whatever it was.
pub record_failure_expired :
    (now : ℕ) (ip : IpAddr) (s : State) (e : Entry)
    → s.entries ip ≡ some e
    → is_live e now ≡ false
    → (record_failure now ip s).entries ip
      ≡ some (
          restarted now (
            if cleanup_due s.last_cleanup now
            then 0
            else if ltb 0 e.backoff_level || leb 5 e.attempts
            then min (e.backoff_level + 1) 3
            else e.backoff_level))
record_failure_expired now ip s e h k =
    let q = entries-record_failure now ip s in
    let r = dead_cleanup now s ip e h k in
    let f = fail_entry_dead now e k in
    let g = fail_entry_fresh now in
    elim (Bool-cases (cleanup_due s.last_cleanup now)) [
      | inl b ↦ rw (q, r, b, g)
      | inr b ↦ rw (q, r, b, f)
    ]

abbrev pub counted : ℕ → ℕ → Option ℕ → Entry
counted start n lock = record {
  attempts = n;
  window_start = start;
  backoff_level = 0;
  locked_until = lock;
}

pub counted-is_live :
    (start n t : ℕ) → t ≤ start + base_window → is_live (counted start n none) t ≡ true
unfolding is_live window_duration
counted-is_live start n t h = ground arith

pub count_step :
    (ip : IpAddr) (s : State) (start n t : ℕ)
    → t ≤ start + base_window
    → n < 4
    → s.entries ip ≡ some (counted start n none)
    → (record_failure t ip s).entries ip ≡ some (counted start (n + 1) none)
unfolding fail_entry window_duration
count_step ip s start n t h k e =
    let q = record_failure_live t ip s _ e (counted-is_live start n t h) in
    let m : next_attempts n ≡ n + 1 = omega arith in ground arith

pub lock_step :
    (ip : IpAddr) (s : State) (start t : ℕ)
    → t ≤ start + base_window
    → s.entries ip ≡ some (counted start 4 none)
    → (record_failure t ip s).entries ip ≡ some (counted start 5 (some (t + base_window)))
unfolding fail_entry window_duration
lock_step ip s start t h e =
    let q = record_failure_live t ip s _ e (counted-is_live start 4 t h) in ground arith

-- Five failures of an address without an entry within one base window lock it, though not before the
-- fifth: it is then refused for the length of the base window, with the time that is left.
pub five_failures_lock :
    (ip : IpAddr) (s : State) (t1 t2 t3 t4 t5 now : ℕ)
    → s.entries ip ≡ none
    → t1 ≤ t2
    → t2 ≤ t3
    → t3 ≤ t4
    → t4 ≤ t5
    → t5 ≤ t1 + base_window
    → t5 ≤ now
    → now < t5 + base_window
    → ((is_allowed t5 ip (record_failures ip (t1 ∷ t2 ∷ t3 ∷ t4 ∷ []) s)).1 ≡ none)
      × ((is_allowed now ip (record_failures ip (t1 ∷ t2 ∷ t3 ∷ t4 ∷ t5 ∷ []) s)).1
          ≡ some ((t5 + base_window - now) / 1000 + 1))
unfolding check_entry
five_failures_lock ip s t1 t2 t3 t4 t5 now h h2 h3 h4 h5 w a b =
    let b2 : t2 ≤ t1 + base_window = omega arith in
    let b3 : t3 ≤ t1 + base_window = omega arith in
    let b4 : t4 ≤ t1 + base_window = omega arith in
    let lt1 : 1 < 4 = omega arith in
    let lt2 : 2 < 4 = omega arith in
    let lt3 : 3 < 4 = omega arith in
    let e1 = record_failure_first t1 ip s h in
    let e2 = count_step ip _ t1 1 t2 b2 lt1 e1 in
    let e3 = count_step ip _ t1 2 t3 b3 lt2 e2 in
    let e4 = count_step ip _ t1 3 t4 b4 lt3 e3 in
    let e5 = lock_step ip _ t1 t5 w e4 in
    (
      is_allowed_check t5 ip _ ∙ ap (check_entry t5) e4 ∙ check_window-none t5 (counted t1 4 none),
      is_allowed_check now ip _ ∙ ap (check_entry now) e5 ∙ ground arith,
    )

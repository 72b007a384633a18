-- ===== src/RateLimit/Bounds.antt =====
-- app/src/web/ratelimit.rs: what holds of every entry at every moment.
use mathlib.Core.Path.{subst}
use rustkvm.Common.{
  zero, suc, arith, sym, ℕ, ◌+◌, ◌-◌, ◌/◌, ◌≤◌, ◌≡◌, Bool, true, false, ltb, Option, none, some,
  refl, if◌then◌else◌,
}
use rustkvm.RateLimit.{
  IpAddr, Entry, State, new, update, ip_eq, window_duration, is_live, retain_live, retain,
  maybe_cleanup, check_entry, check_lock, check_window, is_allowed, fail_entry, fresh_entry,
  or_insert, record_failure, record_success, cleanup_due,
}

-- The runs of the limiter up to an instant.
pub data Reaches : ℕ → State → Type 0 where
  start : (now : ℕ) → Reaches now new
  later : {now : ℕ} {s : State} → Reaches now s → (t : ℕ) → now ≤ t → Reaches t s
  checked :
      {now : ℕ} {s : State} → Reaches now s → (ip : IpAddr) → Reaches now (is_allowed now ip s).0
  failed :
      {now : ℕ} {s : State} → Reaches now s → (ip : IpAddr) → Reaches now (record_failure now ip s)
  succeeded :
      {now : ℕ} {s : State} → Reaches now s → (ip : IpAddr) → Reaches now (record_success ip s)

unfoldable pub IsLockBounded : ℕ → Option ℕ → Type 0
IsLockBounded end none = Unit
IsLockBounded end (some t) = t ≤ end

unfoldable pub IsEntryAt : ℕ → Option Entry → Type 0
IsEntryAt now none = Unit
IsEntryAt now (some e) =
    (e.backoff_level ≤ 3)
    × (e.window_start ≤ now)
    × IsLockBounded (now + window_duration e.backoff_level) e.locked_until

pub window_duration_le : (n : ℕ) → n ≤ 3 → window_duration n ≤ 7200000
unfolding window_duration
window_duration_le zero h = omega arith
window_duration_le (suc zero) h = omega arith
window_duration_le (suc (suc zero)) h = omega arith
window_duration_le (suc (suc (suc zero))) h = omega arith
window_duration_le (suc (suc (suc (suc n)))) h = absurd (omega arith)

lock_later : (o : Option ℕ) (a b : ℕ) → a ≤ b → IsLockBounded a o → IsLockBounded b o
unfolding IsLockBounded
lock_later none a b h k = tt
lock_later (some t) a b h k = omega arith

entry_later : (o : Option Entry) (a b : ℕ) → a ≤ b → IsEntryAt a o → IsEntryAt b o
unfolding IsEntryAt
entry_later none a b h k = tt
entry_later (some e) a b h (l, s, k) =
    (l, omega arith, lock_later e.locked_until _ _ (omega arith) k)

if-IsEntryAt :
    (b : Bool) (now : ℕ) (o : Option Entry)
    → IsEntryAt now o
    → IsEntryAt now (if b then o else none)
unfolding IsEntryAt
if-IsEntryAt true now o k = k
if-IsEntryAt false now o k = tt

retain_live-IsEntryAt :
    (now : ℕ) (o : Option Entry) → IsEntryAt now o → IsEntryAt now (retain_live now o)
unfolding retain_live
retain_live-IsEntryAt now none k = k
retain_live-IsEntryAt now (some e) k = if-IsEntryAt (is_live e now) now (some e) k

fail_entry-IsEntryAt :
    (now : ℕ) (e : Entry) → IsEntryAt now (some e) → IsEntryAt now (some (fail_entry now e))
unfolding IsEntryAt fail_entry IsLockBounded
fail_entry-IsEntryAt now e (l, s, k) = ground arith

-- What holds of every entry at an instant.
unfoldable pub IsStateAt : ℕ → State → Type 0
IsStateAt now s = (j : IpAddr) → IsEntryAt now (s.entries j)

cleanup_if-IsStateAt :
    (b : Bool) (now : ℕ) (s : State)
    → IsStateAt now s
    → IsStateAt now (if b then retain now s else s)
unfolding IsStateAt
cleanup_if-IsStateAt true now s k j = retain_live-IsEntryAt now (s.entries j) (k j)
cleanup_if-IsStateAt false now s k j = k j

maybe_cleanup-IsStateAt :
    (now : ℕ) (s : State) → IsStateAt now s → IsStateAt now (maybe_cleanup now s)
unfolding maybe_cleanup
maybe_cleanup-IsStateAt now s = cleanup_if-IsStateAt (cleanup_due s.last_cleanup now) now s

or_insert-IsEntryAt :
    (now : ℕ) (o : Option Entry)
    → IsEntryAt now o
    → IsEntryAt now (some (or_insert o (fresh_entry now)))
unfolding IsEntryAt IsLockBounded
or_insert-IsEntryAt now none k = (omega arith, omega arith, tt)
or_insert-IsEntryAt now (some e) k = k

choose-IsEntryAt :
    (b : Bool) (now : ℕ) (o p : Option Entry)
    → IsEntryAt now o
    → IsEntryAt now p
    → IsEntryAt now (if b then o else p)
choose-IsEntryAt true now o p k h = k
choose-IsEntryAt false now o p k h = h

update-IsStateAt :
    (now : ℕ) (m : IpAddr → Option Entry) (ip : IpAddr) (o : Option Entry)
    → ((j : IpAddr) → IsEntryAt now (m j))
    → IsEntryAt now o
    → (j : IpAddr) → IsEntryAt now (update m ip o j)
update-IsStateAt now m ip o k h j = choose-IsEntryAt (ip_eq j ip) now o (m j) h (k j)

Reaches-IsStateAt : (now : ℕ) (s : State) → Reaches now s → IsStateAt now s
unfolding IsStateAt new IsEntryAt is_allowed record_failure record_success
Reaches-IsStateAt now _ (start _) j = tt
Reaches-IsStateAt now _ (later r t h) j = entry_later _ _ t h (Reaches-IsStateAt _ _ r j)
Reaches-IsStateAt now _ (checked {s = s} r ip) j =
    maybe_cleanup-IsStateAt now s (Reaches-IsStateAt now s r) j
Reaches-IsStateAt now _ (failed {s = s} r ip) j =
    let k = maybe_cleanup-IsStateAt now s (Reaches-IsStateAt now s r) in
    update-IsStateAt now (maybe_cleanup now s).entries ip _ k
      (fail_entry-IsEntryAt now _ (or_insert-IsEntryAt now _ (k ip))) j
Reaches-IsStateAt now _ (succeeded {s = s} r ip) j =
    update-IsStateAt now s.entries ip none (Reaches-IsStateAt now s r) tt j

unfoldable pub IsRetry : Option ℕ → Type 0
IsRetry none = Unit
IsRetry (some seconds) = (1 ≤ seconds) × (seconds ≤ 7201)

pub check_window-none : (now : ℕ) (e : Entry) → check_window now e ≡ none
check_window-none now e = ground arith

check_window-IsRetry : (now : ℕ) (e : Entry) → IsRetry (check_window now e)
unfolding IsRetry
check_window-IsRetry now e = subst IsRetry (sym (check_window-none now e)) tt

IsRetry-if :
    (b : Bool) (n : ℕ) (o : Option ℕ)
    → (b ≡ true → n ≤ 7200)
    → IsRetry o
    → IsRetry (if b then some (n + 1) else o)
unfolding IsRetry
IsRetry-if true n o h k = let q = h refl in (omega arith, omega arith)
IsRetry-if false n o h k = k

check_lock-IsRetry :
    (now : ℕ) (e : Entry) (o : Option ℕ)
    → IsLockBounded (now + 7200000) o
    → IsRetry (check_lock now e o)
unfolding IsLockBounded
check_lock-IsRetry now e none k = check_window-IsRetry now e
check_lock-IsRetry now e (some t) k =
    IsRetry-if (ltb now t) ((t - now) / 1000) (check_window now e) (λ _. omega arith)
      (check_window-IsRetry now e)

check_entry-IsRetry : (now : ℕ) (o : Option Entry) → IsEntryAt now o → IsRetry (check_entry now o)
unfolding IsRetry check_entry IsEntryAt IsLockBounded
check_entry-IsRetry now none k = tt
check_entry-IsRetry now (some e) (l, s, k) =
    let h = window_duration_le e.backoff_level l in
    check_lock-IsRetry now e e.locked_until (lock_later e.locked_until _ _ (omega arith) k)

-- In every run of the limiter, by calls at times that do not decrease, an address that is refused is told to
-- wait for at least one second and at most two hours and a second.
pub is_allowed-IsRetry :
    (now : ℕ) (s : State) (ip : IpAddr) → Reaches now s → IsRetry (is_allowed now ip s).1
unfolding is_allowed IsStateAt
is_allowed-IsRetry now s ip r =
    check_entry-IsRetry now _ (maybe_cleanup-IsStateAt now s (Reaches-IsStateAt now s r) ip)

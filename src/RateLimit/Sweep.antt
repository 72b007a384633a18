-- ===== src/RateLimit/Sweep.antt =====
-- app/src/web/ratelimit.rs: the sweep of dead entries, and what other addresses see.
use rustkvm.Common.{
  arith, Bool-cases, inl, inr, ℕ, ◌+◌, ◌≤◌, ◌≡◌, Bool, true, false, ltb, leb, Option, none, some,
  min, refl, if◌then◌else◌, ◌||◌, ==_refl,
}
use rustkvm.RateLimit.{
  IpAddr, v4, v6, Entry, State, update, ip_eq, window_duration, is_locked, is_live, retain_live,
  retain, maybe_cleanup, check_entry, check_lock, is_allowed, fail_entry, fresh_entry, or_insert,
  record_failure, record_success, cleanup_due,
}

ip_eq_refl : (ip : IpAddr) → ip_eq ip ip ≡ true
ip_eq_refl (v4 a) = ==_refl a
ip_eq_refl (v6 a) = ==_refl a

pub update_same :
    (m : IpAddr → Option Entry) (ip : IpAddr) (o : Option Entry) → update m ip o ip ≡ o
update_same m ip o = rw (ip_eq_refl ip)

pub update_other :
    (m : IpAddr → Option Entry) (ip j : IpAddr) (o : Option Entry)
    → ip_eq j ip ≡ false
    → update m ip o j ≡ m j
update_other m ip j o h = rw (h)

entries_if :
    (b : Bool) (now : ℕ) (s : State) (j : IpAddr)
    → (if b then retain now s else s).entries j
      ≡ (if b then retain_live now (s.entries j) else s.entries j)
entries_if true now s j = refl
entries_if false now s j = refl

pub entries-maybe_cleanup :
    (now : ℕ) (s : State) (j : IpAddr)
    → (maybe_cleanup now s).entries j
      ≡ (if cleanup_due s.last_cleanup now then retain_live now (s.entries j) else s.entries j)
unfolding maybe_cleanup
entries-maybe_cleanup now s j = entries_if (cleanup_due s.last_cleanup now) now s j

pub check_lock_past :
    (now t : ℕ) (e : Entry) (o : Option ℕ)
    → now ≤ t
    → is_locked o now ≡ false
    → check_lock t e o ≡ none
check_lock_past now t e none h k = ground arith
check_lock_past now t e (some u) h k = ground arith

pub not_live_unlocked :
    (now : ℕ) (e : Entry) → is_live e now ≡ false → is_locked e.locked_until now ≡ false
unfolding is_live
not_live_unlocked now e h = ground arith

-- Sweeping never changes an answer: what it drops is past its lock.
pub check_retain :
    (now t : ℕ) (o : Option Entry) → now ≤ t → check_entry t (retain_live now o) ≡ check_entry t o
unfolding check_entry retain_live
check_retain now t none h = refl
check_retain now t (some e) h = elim (Bool-cases (is_live e now)) [
  | inl k ↦ rw (k)
  | inr k ↦
      let q = check_lock_past now t e e.locked_until h (not_live_unlocked now e k) in rw (k, q)
]

pub check_cleanup :
    (now t : ℕ) (s : State) (j : IpAddr)
    → now ≤ t
    → check_entry t ((maybe_cleanup now s).entries j) ≡ check_entry t (s.entries j)
check_cleanup now t s j h =
    let q = check_retain now t (s.entries j) h in
    let e = entries-maybe_cleanup now s j in ground arith

pub live_cleanup :
    (now : ℕ) (s : State) (j : IpAddr) (e : Entry)
    → s.entries j ≡ some e
    → is_live e now ≡ true
    → (maybe_cleanup now s).entries j ≡ some e
unfolding retain_live
live_cleanup now s j e h k =
    let r : retain_live now (some e) ≡ some e = rw (retain_live, k) in
    let q = entries-maybe_cleanup now s j in ground arith

pub is_allowed_check :
    (t : ℕ) (j : IpAddr) (s : State) → (is_allowed t j s).1 ≡ check_entry t (s.entries j)
unfolding is_allowed
is_allowed_check t j s = check_cleanup t t s j (omega arith)

pub entries-record_failure :
    (now : ℕ) (ip : IpAddr) (s : State)
    → (record_failure now ip s).entries ip
      ≡ some (fail_entry now (or_insert ((maybe_cleanup now s).entries ip) (fresh_entry now)))
unfolding record_failure
entries-record_failure now ip s = update_same (maybe_cleanup now s).entries ip _

pub entries-record_failure_other :
    (now : ℕ) (ip j : IpAddr) (s : State)
    → ip_eq j ip ≡ false
    → (record_failure now ip s).entries j ≡ (maybe_cleanup now s).entries j
unfolding record_failure
entries-record_failure_other now ip j s h = update_other (maybe_cleanup now s).entries ip j _ h

pub entries-record_success_other :
    (ip j : IpAddr) (s : State) → ip_eq j ip ≡ false → (record_success ip s).entries j ≡ s.entries j
unfolding record_success
entries-record_success_other ip j s h = update_other s.entries ip j none h

-- What is recorded of one address, failure or success, changes no answer to another address at any later
-- time, although a failure may sweep entries away.
pub other_unaffected :
    (now t : ℕ) (s : State) (ip j : IpAddr)
    → ip_eq j ip ≡ false
    → now ≤ t
    → ((is_allowed t j (record_failure now ip s)).1 ≡ (is_allowed t j s).1)
      × ((is_allowed t j (record_success ip s)).1 ≡ (is_allowed t j s).1)
other_unaffected now t s ip j h k =
    let a = is_allowed_check t j (record_failure now ip s) in
    let b = is_allowed_check t j s in
    let c = is_allowed_check t j (record_success ip s) in
    let d = entries-record_failure_other now ip j s h in
    let e = entries-record_success_other ip j s h in let f = check_cleanup now t s j k in (cc, cc)

pub fail_entry_fresh :
    (now : ℕ)
    → fail_entry now (fresh_entry now)
      ≡ record { attempts = 1; window_start = now; backoff_level = 0; locked_until = none }
unfolding fail_entry window_duration
fail_entry_fresh now = ground arith

abbrev pub restarted : ℕ → ℕ → Entry
restarted now level = record {
  attempts = 1;
  window_start = now;
  backoff_level = level;
  locked_until = none;
}

pub fail_entry_dead :
    (now : ℕ) (e : Entry)
    → is_live e now ≡ false
    → fail_entry now e
      ≡ restarted now (
          if ltb 0 e.backoff_level || leb 5 e.attempts
          then min (e.backoff_level + 1) 3
          else e.backoff_level)
unfolding fail_entry is_live
fail_entry_dead now e h = ground arith

pub missing_cleanup :
    (now : ℕ) (s : State) (j : IpAddr) → s.entries j ≡ none → (maybe_cleanup now s).entries j ≡ none
unfolding retain_live
missing_cleanup now s j h = let q = entries-maybe_cleanup now s j in ground arith

pub dead_cleanup :
    (now : ℕ) (s : State) (j : IpAddr) (e : Entry)
    → s.entries j ≡ some e
    → is_live e now ≡ false
    → (maybe_cleanup now s).entries j ≡ (if cleanup_due s.last_cleanup now then none else some e)
unfolding retain_live
dead_cleanup now s j e h k =
    let r : retain_live now (some e) ≡ none = rw (retain_live, k) in
    let q = entries-maybe_cleanup now s j in rw (q, h, r)

-- ===== src/Relock.antt =====
-- app/src/hardware/v4l2.rs: the watch over the relock loop of the HDMI receiver, and the backoff of the
-- restarts of app/src/video.rs. Times are milliseconds; the counts stay below 2^32 and are not wrapped.
pub mod Spacing
mod Runs
use rustkvm.Common.{
  ℕ, zero, suc, ◌+◌, ◌-◌, ◌*◌, ◌^◌, min, List, [], ◌∷◌, ◌++◌, Option, none, some, Bool, true, false,
  not, ◌||◌, if◌then◌else◌, ltb, leb, ◌==◌,
}

unfoldable pub restart_backoff : ℕ → ℕ
restart_backoff consecutive_failures = min (5000 * 2 ^ min consecutive_failures 16) 300000

pub data RelockVerdict : Type 0 where
  quiet : RelockVerdict
  storm : ℕ → RelockVerdict
  replug : ℕ → ℕ → RelockVerdict

pub record RelockWatch : Type 0 where
  pub recent : List (ℕ × ℕ)
  pub last_replug : Option ℕ
  pub attempts : ℕ

abbrev pub window : ℕ
window = 10000

abbrev pub threshold : ℕ
threshold = 6

abbrev pub settle : ℕ
settle = 300000

unfoldable pub backoff : ℕ → ℕ
backoff attempts = min (30000 * 2 ^ min attempts 5) 600000

-- The events counted at a time that is not longer ago than the window, and what stands behind the first of
-- them.
abbrev pub drop_old : ℕ → List (ℕ × ℕ) → List (ℕ × ℕ)
drop_old now [] = []
drop_old now ((t, n) ∷ recent) =
    let rest = drop_old now recent in if ltb window (now - t) then rest else (t, n) ∷ recent

abbrev pub total_events : List (ℕ × ℕ) → ℕ
total_events [] = 0
total_events ((t, n) ∷ recent) = n + total_events recent

abbrev pub is_settled : Option ℕ → ℕ → Bool
is_settled none now = false
is_settled (some t) now = leb settle (now - t)

abbrev pub is_over : Option ℕ → ℕ → ℕ → Bool
is_over none now wait = true
is_over (some t) now wait = leb wait (now - t)

unfoldable pub is_due : RelockWatch → ℕ → Bool
unfolding backoff
is_due w now = w.attempts == 0 || is_over w.last_replug now (backoff (w.attempts - 1))

-- The events still within the window, with those just reported.
abbrev pub recent_events : RelockWatch → ℕ → ℕ → List (ℕ × ℕ)
recent_events w now events =
    drop_old now (if events == 0 then w.recent else w.recent ++ ((now, events) ∷ []))

unfoldable pub observe : RelockWatch → ℕ → ℕ → RelockWatch × RelockVerdict
unfolding is_due backoff
observe w now events =
    let recent = recent_events w now events in
    let total = total_events recent in
    let attempt = w.attempts + 1 in
    let reset : RelockWatch = record { recent = recent; last_replug = none; attempts = 0 } in
    if ltb total threshold
    then (if is_settled w.last_replug now then reset else record w { recent = recent }, quiet)
    else if not (is_due w now)
    then (record w { recent = recent }, storm total)
    else (record { recent = []; last_replug = some now; attempts = attempt }, replug total attempt)

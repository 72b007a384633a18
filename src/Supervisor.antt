-- ===== src/Supervisor.antt =====
-- app/src/video.rs: the check of the running capture pipeline by its supervisor and a tick of the supervisor,
-- on the watch of Relock. What the pipeline, the driver and the restart say is an argument; a tick reads the
-- clock at its start (`now`) and after a replug (`later`). What is only logged is left out.
pub mod Stalls
mod Runs
use rustkvm.Common.{
  ℕ, ◌+◌, ◌-◌, max, min, Option, none, some, Bool, true, false, not, if◌then◌else◌, leb, ◌==◌,
}
use rustkvm.Relock.{RelockWatch, RelockVerdict, quiet, storm, replug, observe, restart_backoff}

pub record LiveCheck : Type 0 where
  pub probe : Bool
  pub relock_events : Bool
  pub relock : RelockWatch
  pub last_frames : ℕ
  pub last_progress : ℕ
  pub stall_restarts : ℕ

-- What a check meets: the frames counted by the pipeline, if there is one; whether the capture node opens and
-- has events; the events counted; whether the driver tells timings, and `none` where its query fails.
pub record Readings : Type 0 where
  pub frames : Option ℕ
  pub opens : Bool
  pub has_events : Bool
  pub events : ℕ
  pub timings : Option Bool
  pub now : ℕ
  pub later : ℕ

abbrev pub stall_limit : ℕ
stall_limit = 10000

unfoldable pub pipeline_replaced : ℕ → LiveCheck → LiveCheck
pipeline_replaced now s = record s { last_frames = 0; last_progress = now }

unfoldable pub open_probe : Readings → LiveCheck → LiveCheck
open_probe r s =
    if s.probe
    then s
    else if r.opens
    then record s { probe = true; relock_events = r.has_events }
    else s

abbrev pub progress_after : RelockVerdict → ℕ → ℕ → ℕ
progress_after quiet later progress = progress
progress_after (storm n) later progress = progress
progress_after (replug n k) later progress = later

unfoldable pub check_relock : Readings → LiveCheck → LiveCheck
check_relock r s =
    let (watch, verdict) = observe s.relock r.now r.events in
    if s.relock_events
    then record s { relock = watch; last_progress = progress_after verdict r.later s.last_progress }
    else s

-- Whether the signal is known to be absent.
abbrev pub is_absent : Bool → Option Bool → Bool
is_absent probe none = false
is_absent probe (some timings) = if probe then not timings else false

abbrev pub limit : ℕ → ℕ
limit restarts = max stall_limit (restart_backoff restarts)

-- The check behind the watch over relocks, for so many frames.
unfoldable pub check_frames : Readings → ℕ → LiveCheck → LiveCheck × Bool
check_frames r frames s =
    if not (frames == s.last_frames)
    then (record s { last_frames = frames; last_progress = r.later; stall_restarts = 0 }, false)
    else if is_absent s.probe r.timings
    then (record s { last_progress = r.later }, false)
    else if leb (limit s.stall_restarts) (r.later - s.last_progress)
    then (record s { stall_restarts = min (s.stall_restarts + 1) 4294967295 }, true)
    else (s, false)

-- `LiveCheck::check`, and whether the pipeline must be rebuilt.
unfoldable pub check : Readings → LiveCheck → LiveCheck × Bool
unfolding open_probe check_relock check_frames
check r s = elim r.frames [
  | none ↦ (s, false)
  | some frames ↦ check_frames r frames (check_relock r (open_probe r s))
]

-- The variables of the supervisor, and how long it sleeps after a tick.
pub record Supervisor : Type 0 where
  pub failures : ℕ
  pub live : LiveCheck

-- The restart of the pipeline and what follows it.
unfoldable pub restart : Readings → Bool → Supervisor → Supervisor × ℕ
unfolding pipeline_replaced
restart r succeeds s =
    let live = pipeline_replaced r.later s.live in
    if succeeds then (record { failures = 0; live = live }, 0) else (
      record { failures = min (s.failures + 1) 4294967295; live = live },
      restart_backoff s.failures,
    )

-- A tick of the supervisor with a configured pipeline; `locked` is that someone else rebuilds right now.
unfoldable pub run_tick : Readings → (locked running succeeds : Bool) → Supervisor → Supervisor × ℕ
unfolding restart check
run_tick r locked running succeeds s =
    let checked = check r s.live in
    if locked
    then (s, 0)
    else if not running
    then restart r succeeds s
    else if checked.1
    then restart r succeeds (record { failures = 0; live = checked.0 })
    else (record { failures = 0; live = checked.0 }, 0)

-- ===== src/Supervisor/Stalls.antt =====
-- app/src/video.rs: when a running pipeline is rebuilt.
use rustkvm.Common.{
  ℕ, ◌+◌, ◌-◌, ◌≤◌, ◌<◌, ◌≡◌, refl, max, List, [], ◌∷◌, false, not, leb, ◌==◌, arith, Bool-cases,
  Option-cases, inl, inr,
}
use rustkvm.Relock.{RelockVerdict, quiet, storm, replug, observe, restart_backoff}
use rustkvm.Supervisor.{
  LiveCheck, Readings, stall_limit, pipeline_replaced, open_probe, progress_after, check_relock,
  is_absent, limit, check_frames, check,
}

progress_after-le :
    (t later progress : ℕ) (v : RelockVerdict)
    → t ≤ later
    → t ≤ progress
    → t ≤ progress_after v later progress
progress_after-le t later progress quiet a b = b
progress_after-le t later progress (storm n) a b = b
progress_after-le t later progress (replug n k) a b = a

check_relock-le :
    (t : ℕ) (r : Readings) (s : LiveCheck)
    → t ≤ r.later
    → t ≤ s.last_progress
    → t ≤ (check_relock r s).last_progress
unfolding check_relock
check_relock-le t r s a b = elim (Bool-cases s.relock_events) [
  | inl e ↦
      rw e (progress_after-le t r.later s.last_progress (observe s.relock r.now r.events).1 a b)
  | inr e ↦ rw e b
]

open_probe-le :
    (t : ℕ) (r : Readings) (s : LiveCheck)
    → t ≤ s.last_progress
    → t ≤ (open_probe r s).last_progress
unfolding open_probe
open_probe-le t r s b = elim (Bool-cases s.probe) [
  | inl e ↦ rw e b
  | inr e ↦ elim (Bool-cases r.opens) [ inl f ↦ rw (e, f) b | inr f ↦ rw (e, f) b ]
]

max_over : (a b wait : ℕ) → wait < a → leb (max a b) wait ≡ false
max_over a b wait h = ground arith

too_early : (restarts wait : ℕ) → wait < stall_limit → leb (limit restarts) wait ≡ false
too_early restarts wait h = max_over stall_limit (restart_backoff restarts) wait h

-- Where no progress is older than a time, a check less than the limit of a stall later does not rebuild.
check_frames_soon :
    (t : ℕ) (r : Readings) (frames : ℕ) (s : LiveCheck)
    → t ≤ r.later
    → r.later < t + stall_limit
    → t ≤ s.last_progress
    → (t ≤ (check_frames r frames s).0.last_progress) × ((check_frames r frames s).1 ≡ false)
unfolding check_frames
check_frames_soon t r frames s a soon b =
    let early : leb (limit s.stall_restarts) (r.later - s.last_progress) ≡ false =
      too_early s.stall_restarts (r.later - s.last_progress) (omega arith) in
    elim (Bool-cases (not (frames == s.last_frames))) [
      | inl e ↦ rw e (a, refl)
      | inr e ↦ elim (Bool-cases (is_absent s.probe r.timings)) [
        | inl f ↦ rw (e, f) (a, refl)
        | inr f ↦ rw (e, f, early) (b, refl)
      ]
    ]

check_soon :
    (t : ℕ) (r : Readings) (s : LiveCheck)
    → t ≤ r.later
    → r.later < t + stall_limit
    → t ≤ s.last_progress
    → (t ≤ (check r s).0.last_progress) × ((check r s).1 ≡ false)
unfolding check
check_soon t r s a soon b = elim (Option-cases r.frames) [
  | inl none_there ↦ rw none_there (b, refl)
  | inr (frames, there) ↦
      let kept = check_relock-le t r (open_probe r s) a (open_probe-le t r s b) in
      rw there (check_frames_soon t r frames (check_relock r (open_probe r s)) a soon kept)
]

-- Checks that all fall into the limit of a stall after a time.
abbrev pub AllSoon : ℕ → List Readings → Type 0
AllSoon t [] = Unit {0}
AllSoon t (r ∷ rest) = (t ≤ r.later) × (r.later < t + stall_limit) × AllSoon t rest

-- None of the checks asks for a rebuild.
abbrev pub LeavesRunning : LiveCheck → List Readings → Type 0
LeavesRunning s [] = Unit {0}
LeavesRunning s (r ∷ rest) = ((check r s).1 ≡ false) × LeavesRunning (check r s).0 rest

soon-LeavesRunning :
    (t : ℕ) (rest : List Readings) (s : LiveCheck)
    → t ≤ s.last_progress
    → AllSoon t rest
    → LeavesRunning s rest
soon-LeavesRunning t [] s b soon = tt
soon-LeavesRunning t (r ∷ rest) s b (a, near, soon) =
    let (kept, runs) = check_soon t r s a near b in
    (runs, soon-LeavesRunning t rest (check r s).0 kept soon)

-- A pipeline that was just replaced is left running by every check of the next ten seconds, whatever the
-- pipeline, the driver and the receiver tell in the meantime.
pub replaced-LeavesRunning :
    (t : ℕ) (rest : List Readings) (s : LiveCheck)
    → AllSoon t rest
    → LeavesRunning (pipeline_replaced t s) rest
unfolding pipeline_replaced
replaced-LeavesRunning t rest s soon =
    soon-LeavesRunning t rest (pipeline_replaced t s) (omega arith) soon

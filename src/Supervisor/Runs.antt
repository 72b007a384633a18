-- ===== src/Supervisor/Runs.antt =====
-- A pipeline that delivers no frame after its replacement.
use rustkvm.Common.{◌≡◌, refl, [], ◌∷◌, none, some, true, false, arith}
use rustkvm.Relock.{restart_backoff}
use rustkvm.Supervisor.{
  LiveCheck, Readings, pipeline_replaced, run_tick, restart, check, check_frames, check_relock,
  open_probe,
}
use rustkvm.Supervisor.Stalls.{LeavesRunning, replaced-LeavesRunning}

abbrev live : LiveCheck
live = record {
  probe = true;
  relock_events = false;
  relock = record { recent = []; last_replug = none; attempts = 0 };
  last_frames = 7;
  last_progress = 0;
  stall_restarts = 1;
}

abbrev stalled : Readings
stalled = record {
  frames = some 0;
  opens = true;
  has_events = false;
  events = 0;
  timings = some true;
  now = 64000;
  later = 64000;
}

replaced-LeavesRunning_example :
    LeavesRunning (pipeline_replaced 60000 live) (stalled ∷ record stalled { later = 69999 } ∷ [])
replaced-LeavesRunning_example =
    replaced-LeavesRunning 60000 (stalled ∷ record stalled { later = 69999 } ∷ []) live
      (omega arith, omega arith, (omega arith, omega arith, tt))

-- Ten seconds after the replacement the pipeline is rebuilt, and a failed restart is waited out.
rebuilt :
    (run_tick
      (record stalled { later = 70000 })
      false
      true
      false
      (record { failures = 3; live = pipeline_replaced 60000 live })).1
    ≡ 5000
unfolding run_tick restart check check_frames check_relock open_probe restart_backoff
    pipeline_replaced
rebuilt = refl

-- ===== src/Jiggler/Runs.antt =====
-- Concrete schedules, calls and rounds.
use rustkvm.Common.{◌≡◌, refl, [], some, none, true, arith}
use rustkvm.Common.Int.{pos, negsuc}
use rustkvm.Common.Text.{codes, trim_start, is_whitespace}
use rustkvm.Hid.Device.{new}
use rustkvm.Jiggler.{
  Jiggler, default_jiggler_config, inactivity_limit, do_jiggle, run_tick, parse_cron_interval,
  parse_u64, first_field,
}
use rustkvm.Jiggler.Activity.{run_tick_own_input}

abbrev no_loops : Jiggler
no_loops = record { config = none; cancel = none; tokens = 0; cancelled = []; loops = [] }

-- A user who left an hour ago, and a round a minute after the jiggle.
run_tick_own_input_example :
    let jiggled = run_tick true default_jiggler_config 3600000 (pos 1) (negsuc 0) (some (new 0)) in
    (jiggled ≡ do_jiggle 3600000 (pos 1) (negsuc 0) (some (new 0)))
    × (run_tick true default_jiggler_config 3660000 (pos 2) (pos 3) jiggled ≡ jiggled)
unfolding new inactivity_limit
run_tick_own_input_example =
    run_tick_own_input true default_jiggler_config 3600000 3660000 (pos 1) (negsuc 0) (pos 2)
      (pos 3) (new 0) refl (omega arith)

with_timezone : parse_cron_interval (codes "TZ=UTC */20 * * * * *") ≡ 20
unfolding parse_cron_interval first_field parse_u64 trim_start is_whitespace
with_timezone = refl

not_a_step : parse_cron_interval (codes "30 * * * * *") ≡ 60
unfolding parse_cron_interval first_field parse_u64 trim_start is_whitespace
not_a_step = refl

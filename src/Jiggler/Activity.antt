-- ===== src/Jiggler/Activity.antt =====
-- app/src/hardware/jiggler.rs and app/src/hardware/usb/hid.rs: the report of a jiggle and the last input; the
-- interval of the loop.
use rustkvm.Common.{
  ℕ, ◌+◌, ◌≤◌, ◌≡◌, refl, Option, none, some, Bool, true, false, arith, Bool-cases, inl, inr,
  Option-cases,
}
use rustkvm.Common.Int.{ℤ}
use rustkvm.Common.Text.{codes, strip_prefix}
use rustkvm.Config.{Text}
use rustkvm.Hid.Device.{Hid, HidWriteCmd, enqueue, rel_mouse_report}
use rustkvm.Jiggler.{
  JigglerConfig, inactivity_limit, is_inactive, do_jiggle, run_tick, parse_cron_interval, parse_u64,
  first_field, without_timezone, field_secs,
}

enqueue-last : (now : ℕ) (h : Hid) (cmd : HidWriteCmd) → (enqueue now h cmd).0.last_user_input ≡ now
unfolding enqueue
enqueue-last now h cmd = ground arith

rel_mouse_report-last :
    (now : ℕ) (h : Hid) (dx dy : ℤ) (buttons : ℕ)
    → (rel_mouse_report now h dx dy buttons).0.last_user_input ≡ now
unfolding rel_mouse_report
rel_mouse_report-last now h dx dy buttons = enqueue-last now h _

-- A jiggle counts as an input of the user: after the round that jiggles, no round within the limit of
-- inactivity does anything.
pub run_tick_own_input :
    (enabled : Bool) (config : JigglerConfig) (now later : ℕ) (dx dy dx' dy' : ℤ) (h : Hid)
    → is_inactive (inactivity_limit config) now (some h) ≡ true
    → later ≤ now + inactivity_limit config
    → let jiggled = run_tick true config now dx dy (some h) in
      (jiggled ≡ do_jiggle now dx dy (some h))
      × (run_tick enabled config later dx' dy' jiggled ≡ jiggled)
unfolding run_tick do_jiggle
run_tick_own_input enabled config now later dx dy dx' dy' h idle soon =
    let next = (rel_mouse_report now h dx dy 0).0 in
    let last = rel_mouse_report-last now h dx dy 0 in
    let active : is_inactive (inactivity_limit config) later (some next) ≡ false =
      rw last (ground arith) in
    let second : run_tick enabled config later dx' dy' (some next) ≡ some next =
      elim (Bool-cases enabled) [ inl e ↦ rw (e, active) refl | inr e ↦ rw e refl ] in
    rw idle (refl, second)

field_secs_positive : (field : Option Text) → 1 ≤ field_secs field
unfolding parse_u64
field_secs_positive none = omega arith
field_secs_positive (some stripped) = elim (Option-cases (parse_u64 stripped)) [
  | inl e ↦ rw e (omega arith)
  | inr (secs, e) ↦ rw e (omega arith)
]

-- The interval of the loop is at least a second for every schedule, so the timer accepts it.
pub parse_cron_interval_positive : (cron_tab : Text) → 1 ≤ parse_cron_interval cron_tab
unfolding parse_cron_interval
parse_cron_interval_positive cron_tab =
    field_secs_positive (strip_prefix (codes "*/") (first_field (without_timezone cron_tab)))

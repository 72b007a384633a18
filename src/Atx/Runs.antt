-- ===== src/Atx/Runs.antt =====
-- Concrete button presses.
use rustkvm.Common.{ℕ, ◌≡◌, refl, [], ◌∷◌, ◌++◌, Bool, true, false, none, ◌⊎◌, ◌==◌, not}
use rustkvm.Common.Text.{codes}
use rustkvm.Atx.{
  Atx, level, sleep, pulse_output_pin, set_atx_power_action, press_atx_reset_button, sysfs_write,
  and_then, pause,
}
use rustkvm.Atx.Buttons.{press, pulse_output_pin_outcomes, set_atx_power_action-IsPress, IsPress}

abbrev unmounted : Atx
unmounted = record {
  mounted = false;
  led_pwr = false;
  led_hdd = false;
  atx_state = none;
  tried = 0;
  effects = [];
}

abbrev third_fails : ℕ → Bool
third_fails n = not (n == 2)

pulse_output_pin_outcomes_example :
    let (s', done) = pulse_output_pin third_fails 125 200 unmounted in
    ((done ≡ true) × (s'.effects ≡ [] ++ press 125 200))
    ⊎ (((done ≡ false) × (s'.effects ≡ []))
        ⊎ ((done ≡ false) × (s'.effects ≡ [] ++ (level 125 true ∷ sleep 200 ∷ []))))
pulse_output_pin_outcomes_example = pulse_output_pin_outcomes third_fails 125 200 unmounted

set_atx_power_action-IsPress_example :
    IsPress
      (codes "reset")
      []
      (set_atx_power_action third_fails (codes "reset") unmounted).0.effects
unfolding set_atx_power_action press_atx_reset_button pulse_output_pin sysfs_write and_then pause
set_atx_power_action-IsPress_example =
    set_atx_power_action-IsPress third_fails (codes "reset") unmounted refl

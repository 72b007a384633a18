-- ===== src/Dc/Runs.antt =====
-- Concrete changes of the active extension.
use rustkvm.Common.{◌≡◌, refl, [], none, true, false}
use rustkvm.Common.Text.{codes}
use rustkvm.Atx.{Atx}
use rustkvm.Config.Default.{default_config}
use rustkvm.Common.Action.{and_then}
use rustkvm.Config.Manager.{update}
use rustkvm.Dc.{
  Power, get_active_extension, set_active_extension, save_extension, unmount_extension,
  mount_extension, mount_dc_control,
}
use rustkvm.Dc.Extension.{set_active_extension_again}

abbrev idle_atx : Atx
idle_atx = record {
  mounted = false;
  led_pwr = false;
  led_hdd = false;
  atx_state = none;
  tried = 0;
  effects = [];
}

abbrev power : Power
power = record {
  atx = idle_atx;
  dc = record { dc_state = none; tried = 0; effects = [] };
  manager = record { config = default_config (codes "kvm"); file = none; saves = 0 };
}

-- An extension that does not exist.
set_active_extension_again_example :
    let set =
      set_active_extension (λ n. true) (λ n. true) (λ n. true) none false 5 (codes "dc_power") in
    (get_active_extension (set power).0 ≡ codes "dc_power")
    × (set (set power).0 ≡ ((set power).0, true))
set_active_extension_again_example =
    set_active_extension_again (λ n. true) (λ n. true) (λ n. true) none false 5 (codes "dc_power")
      power

-- The control is not mounted, and the first call fails.
dc_not_mounted :
    (set_active_extension
      (λ n. true)
      (λ n. false)
      (λ n. true)
      none
      false
      5
      (codes "dc-power")
      power).1
    ≡ false
unfolding set_active_extension get_active_extension and_then save_extension update unmount_extension
    mount_extension mount_dc_control
dc_not_mounted = refl

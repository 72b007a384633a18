-- ===== src/Mqtt/Runs.antt =====
-- Concrete commands.
use rustkvm.Common.{ℕ, ◌≡◌, refl, [], ◌∷◌, Option, none, some, Bool, true, false}
use rustkvm.Common.Int.{ℤ, pos}
use rustkvm.Common.Text.{codes, trim}
use rustkvm.Atx.{Atx}
use rustkvm.Config.{Text}
use rustkvm.Common.Text.{split, split_from}
use rustkvm.Storage.Names.{disk, sanitize_filename, components, file_name}
use rustkvm.Storage.Media.{Media, VirtualMediaState, storage}
use rustkvm.Mqtt.{
  Bridge, set_jiggler_state, is_refused_name, handle_jiggler_command, command_of,
  handle_virtual_media_command, handle_command, turn,
}
use rustkvm.Mqtt.Commands.{handle_command_disabled, change_of_medium_races}

abbrev idle_atx : Atx
idle_atx = record {
  mounted = false;
  led_pwr = false;
  led_hdd = false;
  atx_state = none;
  tried = 0;
  effects = [];
}

abbrev old_image : VirtualMediaState
old_image = record {
  source = storage;
  mode = disk;
  filename = some (codes "a.img");
  url = none;
  size = pos 5;
}

abbrev mounted : Media
mounted = record {
  current = some old_image;
  nbd = none;
  reader = none;
  lun_file = codes "/userdata/rustkvm/images/a.img";
  lun_cdrom = codes "0";
  tried = 0;
}

abbrev bridge : Bridge
bridge = record {
  atx = idle_atx;
  dc = record { dc_state = none; tried = 0; effects = [] };
  media = mounted;
  update_requested = false;
  spawned = [];
}

abbrev works : ℕ → Bool
works n = true

abbrev metadata : Text → Option ℤ
metadata path = some (pos 7)

handle_command_disabled_example :
    handle_command works works false 5 false
      (codes "rustkvm")
      (codes "rustkvm/reboot/set")
      []
      bridge
    ≡ bridge
handle_command_disabled_example =
    handle_command_disabled works works false 5 (codes "rustkvm") (codes "rustkvm/reboot/set") []
      bridge

change_of_medium_races_example :
    let asked = handle_virtual_media_command works works false 5 true (codes "b.img") bridge in
    let run = turn works metadata 0 in
    let cleared = run asked in
    let after = run (run cleared) in
    (after.spawned ≡ [])
    × (after.media.current ≡ none)
    × (after.media.lun_file ≡ codes "/userdata/rustkvm/images/b.img")
unfolding is_refused_name sanitize_filename components file_name split split_from
change_of_medium_races_example =
    change_of_medium_races works works false 5 metadata (codes "b.img") (codes "b.img") (pos 7)
      old_image bridge refl refl refl refl refl refl

jiggler_on :
    (handle_command works works false 5 true
      (codes "rustkvm")
      (codes "rustkvm/jiggler/set")
      (codes " on ")
      bridge).spawned
    ≡ set_jiggler_state true ∷ []
unfolding handle_command handle_jiggler_command command_of trim
jiggler_on = refl

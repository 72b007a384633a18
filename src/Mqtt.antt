-- ===== src/Mqtt.antt =====
-- app/src/mqtt/commands.rs: the commands that arrive over MQTT, on the power controls of Dc and Atx and the
-- media of Storage. What app/src/mqtt/stubs.rs spawns runs later and in any order: the tasks are kept in a
-- list. Publications of a state to the broker change nothing here and are left out.
pub mod Commands
mod Runs
use rustkvm.Common.{
  ℕ, zero, suc, List, [], ◌∷◌, ◌++◌, Option, none, some, Bool, true, false, not, ◌||◌, ◌&&◌,
  if◌then◌else◌, ◌==◌, any, contains,
}
use rustkvm.Common.Int.{ℤ, pos}
use rustkvm.Common.Text.{codes, text_eq, trim, to_ascii_lowercase, strip_prefix}
use rustkvm.Atx.{Atx, press_atx_power_button, press_atx_reset_button}
use rustkvm.Config.{Text}
use rustkvm.Dc.{Dc, set_dc_power_state, set_dc_restore_state}
use rustkvm.Storage.Media.{Media, mount_with_storage, clear_image, finish_unmount}
use rustkvm.Storage.Names.{disk}

-- A task that a command spawns; `unmount_sleeping` is an unmount in its sleep.
pub data Task : Type 0 where
  set_jiggler_state : Bool → Task
  reboot_device : Task
  unmount_task : Task
  unmount_sleeping : Task
  mount_task : Text → Task

pub record Bridge : Type 0 where
  pub atx : Atx
  pub dc : Dc
  pub media : Media
  pub update_requested : Bool
  pub spawned : List Task

-- `str::to_uppercase`, as far as the letters of `ON` and `OFF` are concerned: of the other characters only
-- the ligature of two `f` becomes one of them.
abbrev pub to_uppercase : Text → Text
to_uppercase [] = []
to_uppercase (c ∷ s) =
    let rest = to_uppercase s in
    if c == 0xfb00
    then b'F' ∷ b'F' ∷ rest
    else if c == b'o'
    then b'O' ∷ rest
    else if c == b'n'
    then b'N' ∷ rest
    else if c == b'f'
    then b'F' ∷ rest
    else c ∷ rest

-- The command of a topic: what stands behind the base topic and a slash, or the whole topic.
unfoldable pub command_of : Text → Text → Text
command_of base topic = elim (strip_prefix base topic) [
  | none ↦ topic
  | some s ↦ elim (strip_prefix (codes "/") s) [ none ↦ topic | some cmd ↦ cmd ]
]

abbrev pub spawn : Task → Bridge → Bridge
spawn t s = record s { spawned = s.spawned ++ (t ∷ []) }

-- `payload.contains("..")`.
abbrev pub has_dots : Text → Bool
has_dots [] = false
has_dots (c ∷ []) = false
has_dots (c ∷ d ∷ s) = let rest = has_dots (d ∷ s) in (c == b'.' && d == b'.') || rest

unfoldable pub is_refused_name : Text → Bool
is_refused_name payload = has_dots payload || contains payload b'/' || contains payload b'\\'

abbrev pub is_mounted : Media → Bool
is_mounted m = elim m.current [ none ↦ false | some _ ↦ true ]

-- Which writes to sysfs succeed, the pin of the DC power and whether it is exported, and whether actions are
-- allowed.
module _ (atx_succeeds dc_succeeds : ℕ → Bool) (exists : Bool) (gpio : ℕ)
    (enable_actions : Bool) where
  unfoldable pub handle_dc_power_command : Text → Bridge → Bridge
  handle_dc_power_command payload s =
      let on = record s { dc = (set_dc_power_state dc_succeeds exists gpio true s.dc).0 } in
      let off = record s { dc = (set_dc_power_state dc_succeeds exists gpio false s.dc).0 } in
      if not enable_actions
      then s
      else if text_eq (to_uppercase payload) (codes "ON")
      then on
      else if text_eq (to_uppercase payload) (codes "OFF")
      then off
      else s

  abbrev pub restore_to : ℕ → Bridge → Bridge
  restore_to n s = record s { dc = (set_dc_restore_state dc_succeeds gpio (pos n) s.dc).0 }

  unfoldable pub handle_dc_restore_command : Text → Bridge → Bridge
  handle_dc_restore_command payload s =
      let lower = to_ascii_lowercase payload in
      if not enable_actions
      then s
      else if text_eq lower (codes "off")
      then restore_to 0 s
      else if text_eq lower (codes "on")
      then restore_to 1 s
      else if text_eq lower (codes "last_state")
      then restore_to 2 s
      else s

  unfoldable pub handle_atx_power_command : ℕ → Bridge → Bridge
  handle_atx_power_command ms s =
      if not enable_actions
      then s
      else record s { atx = (press_atx_power_button atx_succeeds ms s.atx).0 }

  unfoldable pub handle_atx_reset_command : Bridge → Bridge
  handle_atx_reset_command s =
      if not enable_actions
      then s
      else record s { atx = (press_atx_reset_button atx_succeeds 500 s.atx).0 }

  unfoldable pub handle_jiggler_command : Text → Bridge → Bridge
  handle_jiggler_command payload s =
      if not enable_actions
      then s
      else if text_eq (to_uppercase payload) (codes "ON")
      then spawn (set_jiggler_state true) s
      else if text_eq (to_uppercase payload) (codes "OFF")
      then spawn (set_jiggler_state false) s
      else s

  unfoldable pub handle_reboot_command : Bridge → Bridge
  handle_reboot_command s = if not enable_actions then s else spawn reboot_device s

  -- `trigger_ota_update` succeeds and does nothing.
  unfoldable pub handle_update_install_command : Bridge → Bridge
  handle_update_install_command s =
      if not enable_actions then s else record s { update_requested = true }

  unfoldable pub handle_virtual_media_command : Text → Bridge → Bridge
  handle_virtual_media_command payload s =
      if not enable_actions
      then s
      else if text_eq payload (codes "-- no media --")
      then spawn unmount_task s
      else if is_refused_name payload
      then s
      else if is_mounted s.media
      then spawn (mount_task payload) (spawn unmount_task s)
      else spawn (mount_task payload) s

  unfoldable pub handle_command : Text → Text → Text → Bridge → Bridge
  handle_command base topic payload0 s =
      let payload = trim payload0 in
      let cmd = command_of base topic in
      if text_eq cmd (codes "dc_power/set")
      then handle_dc_power_command payload s
      else if text_eq cmd (codes "dc_restore/set")
      then handle_dc_restore_command payload s
      else if text_eq cmd (codes "atx_power_short/set")
      then handle_atx_power_command 200 s
      else if text_eq cmd (codes "atx_power_long/set")
      then handle_atx_power_command 5000 s
      else if text_eq cmd (codes "atx_reset/set")
      then handle_atx_reset_command s
      else if text_eq cmd (codes "jiggler/set")
      then handle_jiggler_command payload s
      else if text_eq cmd (codes "reboot/set")
      then handle_reboot_command s
      else if text_eq cmd (codes "update/install")
      then handle_update_install_command s
      else if text_eq cmd (codes "virtual_media/set")
      then handle_virtual_media_command payload s
      else s

-- A spawned task, whichever, runs to its end, or an unmount to its sleep, behind which it is a task again. The
-- jiggler and the reboot touch neither the power controls nor the medium.
unfoldable pub run_task : (ℕ → Bool) → (Text → Option ℤ) → Task → Bridge → Bridge
unfolding finish_unmount clear_image mount_with_storage
run_task succeeds metadata (set_jiggler_state enabled) s = s
run_task succeeds metadata reboot_device s = s
run_task succeeds metadata unmount_task s =
    spawn unmount_sleeping (record s { media = (clear_image succeeds s.media).0 })
run_task succeeds metadata unmount_sleeping s = record s {
  media = (finish_unmount succeeds s.media).0;
}
run_task succeeds metadata (mount_task name) s = record s {
  media = (mount_with_storage succeeds metadata name disk s.media).0;
}

-- The task at a place of the list, and the others.
unfoldable pub take_at : ℕ → List Task → Option (Task × List Task)
take_at i [] = none
take_at zero (t ∷ tasks) = some (t, tasks)
take_at (suc i) (t ∷ tasks) = elim (take_at i tasks) [
  | none ↦ none
  | some (u, rest) ↦ some (u, t ∷ rest)
]

-- A turn of the runtime: the task at a place runs.
unfoldable pub turn : (ℕ → Bool) → (Text → Option ℤ) → ℕ → Bridge → Bridge
unfolding take_at run_task
turn succeeds metadata i s = elim (take_at i s.spawned) [
  | none ↦ s
  | some (t, rest) ↦ run_task succeeds metadata t (record s { spawned = rest })
]

-- ===== src/Mqtt/Commands.antt =====
-- app/src/mqtt/commands.rs: commands that are not allowed, and the change of the medium.
use mathlib.Core.Path.{subst}
use rustkvm.Common.Action.{and_then, and_also}
use rustkvm.Common.{
  ℕ, ◌≡◌, refl, sym, ap, ◌∙◌, [], ◌∷◌, ◌++◌, Option, none, some, Bool, true, false, if◌then◌else◌,
}
use rustkvm.Common.Int.{ℤ}
use rustkvm.Common.Text.{codes, text_eq}
use rustkvm.Config.{Text}
use rustkvm.Storage.Names.{disk, sanitize_filename}
use rustkvm.Storage.Media.{
  mount_with_storage, clear_image, Media, VirtualMediaState, in_folder, write_file, attempt,
  set_mass_storage_image, set_mass_storage_mode, set_current,
}
use rustkvm.Storage.Mounting.{finish_unmount-clears, finish_unmount-file}
use rustkvm.Mqtt.{
  Bridge, command_of, is_mounted, unmount_task, mount_task, is_refused_name,
  handle_dc_power_command, handle_dc_restore_command, handle_atx_power_command,
  handle_atx_reset_command, handle_jiggler_command, handle_reboot_command,
  handle_update_install_command, handle_virtual_media_command, handle_command, turn, take_at,
  run_task, spawn,
}

either : (b : Bool) (x y s : Bridge) → x ≡ s → y ≡ s → (if b then x else y) ≡ s
either true x y s h k = h
either false x y s h k = k

-- Where actions are not allowed, no command does anything, whatever its topic and its payload.
pub handle_command_disabled :
    (atx_succeeds dc_succeeds : ℕ → Bool) (exists : Bool) (gpio : ℕ) (base topic payload : Text)
    (s : Bridge)
    → handle_command atx_succeeds dc_succeeds exists gpio false base topic payload s ≡ s
unfolding handle_command handle_dc_power_command handle_dc_restore_command handle_atx_power_command
    handle_atx_reset_command handle_jiggler_command handle_reboot_command
    handle_update_install_command handle_virtual_media_command
handle_command_disabled atx_succeeds dc_succeeds exists gpio base topic payload s =
    let cmd = command_of base topic in
    either (text_eq cmd (codes "dc_power/set")) s _ s refl (
      either (text_eq cmd (codes "dc_restore/set")) s _ s refl (
        either (text_eq cmd (codes "atx_power_short/set")) s _ s refl (
          either (text_eq cmd (codes "atx_power_long/set")) s _ s refl (
            either (text_eq cmd (codes "atx_reset/set")) s _ s refl (
              either (text_eq cmd (codes "jiggler/set")) s _ s refl (
                either (text_eq cmd (codes "reboot/set")) s _ s refl (
                  either (text_eq cmd (codes "update/install")) s _ s refl
                    (either (text_eq cmd (codes "virtual_media/set")) s _ s refl refl))))))))

-- Where every call succeeds, a mount gives the image to the gadget.
mounted_file :
    (metadata : Text → Option ℤ) (name file : Text) (len : ℤ) (s : Media)
    → sanitize_filename name ≡ some file
    → metadata (in_folder file) ≡ some len
    → (mount_with_storage (λ n. true) metadata name disk s).0.lun_file ≡ in_folder file
unfolding mount_with_storage write_file attempt and_then and_also set_mass_storage_image
    set_mass_storage_mode set_current
mounted_file metadata name file len s clean there = rw (mount_with_storage, clean, there) refl

-- The two tasks of a change of the medium, the mount within the sleep of the unmount.
three_turns :
    (metadata : Text → Option ℤ) (name file : Text) (len : ℤ) (s : Bridge)
    → sanitize_filename name ≡ some file
    → metadata (in_folder file) ≡ some len
    → let run = turn (λ n. true) metadata 0 in
      let after = run (run (run (record s { spawned = unmount_task ∷ mount_task name ∷ [] }))) in
      (after.spawned ≡ []) × (after.media.current ≡ none) × (after.media.lun_file ≡ in_folder file)
unfolding turn take_at run_task
three_turns metadata name file len s clean found =
    let cleared = (clear_image (λ n. true) s.media).0 in
    let mounted = (mount_with_storage (λ n. true) metadata name disk cleared).0 in
    let (returned, gone, stopped, no_reader) = finish_unmount-clears (λ n. true) mounted in
    let shown =
      finish_unmount-file (λ n. true) mounted
      ∙ mounted_file metadata name file len cleared clean found in
    (refl, gone, shown)

two_spawned :
    (atx_succeeds dc_succeeds : ℕ → Bool) (exists : Bool) (gpio : ℕ) (name : Text)
    (other : VirtualMediaState) (s : Bridge)
    → s.media.current ≡ some other
    → s.spawned ≡ []
    → text_eq name (codes "-- no media --") ≡ false
    → is_refused_name name ≡ false
    → handle_virtual_media_command atx_succeeds dc_succeeds exists gpio true name s
      ≡ record s { spawned = unmount_task ∷ mount_task name ∷ [] }
unfolding handle_virtual_media_command
two_spawned atx_succeeds dc_succeeds exists gpio name other s there idle named fine =
    let there_now : is_mounted s.media ≡ true = rw there refl in
    let tasks = ap (λ l. (l ++ (unmount_task ∷ [])) ++ (mount_task name ∷ [])) idle in
    let both : (b c d : Bool)
        → b ≡ false
        → c ≡ false
        → d ≡ true
        → (if b
            then spawn unmount_task s
            else if c
            then s
            else if d
            then spawn (mount_task name) (spawn unmount_task s)
            else spawn (mount_task name) s)
          ≡ spawn (mount_task name) (spawn unmount_task s) =
      (λ b c d h k l. rw (h, k, l) refl) in
    both (text_eq name (codes "-- no media --")) (is_refused_name name) (is_mounted s.media) named
      fine there_now
    ∙ ap (λ l. record s { spawned = l }) tasks

-- A command to change the medium, while one is mounted and no other task waits, spawns the unmount and then the
-- mount. The runtime can run the unmount to its sleep, then the mount, and then the rest of the unmount: even
-- where every call succeeds, all tasks are then done, the new image is on the gadget, and nothing counts as
-- mounted.
pub change_of_medium_races :
    (atx_succeeds dc_succeeds : ℕ → Bool) (exists : Bool) (gpio : ℕ) (metadata : Text → Option ℤ)
    (name file : Text) (len : ℤ) (other : VirtualMediaState) (s : Bridge)
    → s.media.current ≡ some other
    → s.spawned ≡ []
    → text_eq name (codes "-- no media --") ≡ false
    → is_refused_name name ≡ false
    → sanitize_filename name ≡ some file
    → metadata (in_folder file) ≡ some len
    → let asked = handle_virtual_media_command atx_succeeds dc_succeeds exists gpio true name s in
      let run = turn (λ n. true) metadata 0 in
      let cleared = run asked in
      let after = run (run cleared) in
      (after.spawned ≡ []) × (after.media.current ≡ none) × (after.media.lun_file ≡ in_folder file)
change_of_medium_races atx_succeeds dc_succeeds exists gpio metadata name file len other s there
      idle named fine clean found =
    let asked =
      two_spawned atx_succeeds dc_succeeds exists gpio name other s there idle named fine in
    let run = turn (λ n. true) metadata 0 in
    subst
      (λ t.
        let after = run (run (run t)) in
        (after.spawned ≡ [])
        × (after.media.current ≡ none)
        × (after.media.lun_file ≡ in_folder file))
      (sym asked) (three_turns metadata name file len s clean found)

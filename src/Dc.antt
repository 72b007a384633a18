-- ===== src/Dc.antt =====
-- app/src/power/dc.rs: the DC power control and the choice of the active extension, on the ATX control of
-- Atx and the configuration of Config. Which writes to sysfs succeed is a parameter; the pin and whether
-- it is exported are arguments. The measured voltage, current and power are floating point and are left
-- out.
pub mod Extension
mod Runs
use rustkvm.Common.{
  ℕ, zero, suc, ◌+◌, ◌%◌, List, [], ◌∷◌, ◌++◌, Option, none, some, Bool, true, false, ◌&&◌, not,
  if◌then◌else◌, ◌==◌,
}
use rustkvm.Common.Action.{Action, and_then, always, refuse}
use rustkvm.Common.Int.{ℤ, pos, negsuc}
use rustkvm.Common.Text.{codes, text_eq}
use rustkvm.Atx.{
  Atx, AtxState, Effect, export, unexport, direction, level, sleep, mount_atx_control,
  unmount_atx_control,
}
use rustkvm.Config.{Text, Config}
use rustkvm.Config.Manager.{Manager, update}

-- What `DC_STATE` keeps of a `DcPowerState`.
pub record DcPowerState : Type 0 where
  pub is_on : Bool
  pub restore_state : ℤ

abbrev pub default_dc_state : DcPowerState
default_dc_state = record { is_on = false; restore_state = negsuc 0 }

-- The static of the module, the writes tried, and the effects so far, newest last.
pub record Dc : Type 0 where
  pub dc_state : Option DcPowerState
  pub tried : ℕ
  pub effects : List Effect

-- `init_dc_state`: `get_or_init`.
unfoldable pub init_dc_state : Dc → Dc
init_dc_state s = elim s.dc_state [
  | none ↦ record s { dc_state = some default_dc_state }
  | some _ ↦ s
]

abbrev pub current_state : Dc → DcPowerState
current_state s = elim s.dc_state [ none ↦ default_dc_state | some state ↦ state ]

-- The value of `read_dc_on_state` for the text of the file.
unfoldable pub read_dc_on_state : Text → Option Bool
read_dc_on_state val =
    if text_eq val (codes "1")
    then some true
    else if text_eq val (codes "0")
    then some false
    else none

-- `get_dc_power_state`, with the pin and what the read of its value gives.
unfoldable pub get_dc_power_state : ℕ → Option Text → Dc → Dc × DcPowerState
unfolding init_dc_state read_dc_on_state
get_dc_power_state gpio value s0 =
    let s = init_dc_state s0 in
    let state = current_state s in
    let read : Option Bool = elim value [ none ↦ none | some text ↦ read_dc_on_state text ] in
    let measured : Bool = elim read [ none ↦ false | some on ↦ on ] in
    (s, record state { is_on = if gpio == 0 then state.is_on else measured })

unfoldable pub get_dc_restore_state : Dc → Dc × ℤ
unfolding init_dc_state
get_dc_restore_state s0 = let s = init_dc_state s0 in (s, (current_state s).restore_state)

module _ (succeeds : ℕ → Bool) where
  unfoldable pub write_sysfs_file : Effect → Action Dc
  write_sysfs_file e s =
      if succeeds s.tried
      then (record s { tried = s.tried + 1; effects = s.effects ++ (e ∷ []) }, true)
      else (record s { tried = s.tried + 1 }, false)

  -- `ensure_gpio_exported`, with whether the directory of the pin exists.
  unfoldable pub ensure_gpio_exported : Bool → ℕ → Action Dc
  unfolding write_sysfs_file and_then
  ensure_gpio_exported exists pin s =
      if exists
      then (s, true)
      else and_then (write_sysfs_file (export pin))
          (always (λ t. record t { effects = t.effects ++ (sleep 100 ∷ []) })) s

  unfoldable pub set_dc_power_state : Bool → ℕ → Bool → Action Dc
  unfolding ensure_gpio_exported write_sysfs_file and_then init_dc_state
  set_dc_power_state exists gpio enabled s =
      let store : Dc → Dc =
        (λ t. record t { dc_state = some (record (current_state t) { is_on = enabled }) }) in
      if gpio == 0
      then (store s, true)
      else and_then (ensure_gpio_exported exists gpio)
          (and_then (write_sysfs_file (direction gpio true))
            (and_then (write_sysfs_file (level gpio enabled)) (always store)))
          s

  -- The write of a restore state: the pin behind the power pin is low for off and high for on.
  unfoldable pub write_restore_state : ℕ → ℤ → Action Dc
  unfolding write_sysfs_file
  write_restore_state gpio (pos zero) s = write_sysfs_file (level ((gpio + 1) % 4294967296) false) s
  write_restore_state gpio (pos (suc zero)) s =
      write_sysfs_file (level ((gpio + 1) % 4294967296) true) s
  write_restore_state gpio (pos (suc (suc zero))) s = (s, true)
  write_restore_state gpio (pos (suc (suc (suc n)))) s = (s, false)
  write_restore_state gpio (negsuc n) s = (s, false)

  abbrev pub is_restore_state : ℤ → Bool
  is_restore_state (pos zero) = true
  is_restore_state (pos (suc zero)) = true
  is_restore_state (pos (suc (suc zero))) = true
  is_restore_state (pos (suc (suc (suc n)))) = false
  is_restore_state (negsuc n) = false

  unfoldable pub set_dc_restore_state : ℕ → ℤ → Action Dc
  unfolding write_restore_state and_then
  set_dc_restore_state gpio state s =
      let store : Dc → Dc =
        (λ t. record t { dc_state = some (record (current_state t) { restore_state = state }) }) in
      if not (is_restore_state state)
      then (s, false)
      else if gpio == 0
      then (store s, true)
      else and_then (write_restore_state gpio state) (always store) s

  unfoldable pub mount_dc_control : Bool → ℕ → Action Dc
  unfolding ensure_gpio_exported write_sysfs_file and_then init_dc_state
  mount_dc_control exists gpio s =
      if gpio == 0
      then (init_dc_state s, true)
      else and_then (ensure_gpio_exported exists gpio) (write_sysfs_file (direction gpio true))
          (init_dc_state s)

  unfoldable pub unmount_dc_control : ℕ → Dc → Dc
  unfolding write_sysfs_file
  unmount_dc_control gpio s = if gpio == 0 then s else (write_sysfs_file (unexport gpio) s).0

-- The two power controls and the configuration.
pub record Power : Type 0 where
  pub atx : Atx
  pub dc : Dc
  pub manager : Manager

abbrev pub atx_power : Text
atx_power = codes "atx-power"

abbrev pub dc_power : Text
dc_power = codes "dc-power"

abbrev pub unwrap_or_default : Option Text → Text
unwrap_or_default none = []
unwrap_or_default (some id) = id

unfoldable pub get_active_extension : Power → Text
get_active_extension s = unwrap_or_default s.manager.config.active_extension

-- The writes of the two controls that succeed, the saves that succeed, what the LEDs read, whether the DC
-- pin is exported, and the pin.
module _ (atx_succeeds dc_succeeds saves : ℕ → Bool) (read : Option AtxState) (exists : Bool)
    (gpio : ℕ) where
  unfoldable pub unmount_extension : Text → Power → Power
  unmount_extension current s =
      if text_eq current atx_power
      then record s { atx = (unmount_atx_control atx_succeeds s.atx).0 }
      else if text_eq current dc_power
      then record s { dc = unmount_dc_control dc_succeeds gpio s.dc }
      else s

  unfoldable pub save_extension : Text → Action Power
  save_extension id s =
      let active : Option Text = if text_eq id [] then none else some id in
      let (m, done) = update saves (λ c. record c { active_extension = active }) s.manager in
      (record s { manager = m }, done)

  unfoldable pub mount_extension : Text → Action Power
  mount_extension id s =
      let (atx, atx_done) = mount_atx_control atx_succeeds read s.atx in
      let (dc, dc_done) = mount_dc_control dc_succeeds exists gpio s.dc in
      if text_eq id atx_power
      then (record s { atx = atx }, atx_done)
      else if text_eq id dc_power
      then (record s { dc = dc }, dc_done)
      else (s, text_eq id [])

  unfoldable pub set_active_extension : Text → Action Power
  set_active_extension id s =
      if text_eq (get_active_extension s) id
      then (s, true)
      else and_then (save_extension id) (mount_extension id)
          (unmount_extension (get_active_extension s) s)

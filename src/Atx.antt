-- ===== src/Atx.antt =====
-- app/src/power/atx.rs: the ATX power control over GPIO. A write to sysfs is an effect that succeeds or
-- fails; which of them succeed, in their order, is a parameter, and so are the values that reads give.
pub mod Buttons
mod Runs
use rustkvm.Common.{
  ℕ, ◌+◌, List, [], ◌∷◌, ◌++◌, Bool, true, false, not, if◌then◌else◌, ◌==◌, Option, none, some,
}
use rustkvm.Common.Text.{codes, text_eq}

abbrev pub atx_power_pin : ℕ
atx_power_pin = 124

abbrev pub atx_reset_pin : ℕ
atx_reset_pin = 125

abbrev pub atx_pwr_led_pin : ℕ
atx_pwr_led_pin = 126

abbrev pub atx_hdd_led_pin : ℕ
atx_hdd_led_pin = 127

pub record AtxState : Type 0 where
  pub power : Bool
  pub hdd : Bool

-- What a write to sysfs does to a pin, and the sleeps between the writes.
pub data Effect : Type 0 where
  export : ℕ → Effect
  unexport : ℕ → Effect
  direction : ℕ → Bool → Effect
  level : ℕ → Bool → Effect
  sleep : ℕ → Effect

-- The statics of the module, the number of writes tried, and the effects so far, newest last.
pub record Atx : Type 0 where
  pub mounted : Bool
  pub led_pwr : Bool
  pub led_hdd : Bool
  pub atx_state : Option AtxState
  pub tried : ℕ
  pub effects : List Effect

-- A step that returns `Result<()>`: the state, and whether it is `Ok`.
abbrev pub Action : Type 0
Action = Atx → Atx × Bool

-- `first?; second`.
unfoldable pub and_then : Action → Action → Action
and_then first second s = let (s', done) = first s in if done then second s' else (s', false)

-- `let _ = first; second`.
unfoldable pub and_also : Action → Action → Action
and_also first second s = second (first s).0

unfoldable pub pause : ℕ → Action
pause ms s = (record s { effects = s.effects ++ (sleep ms ∷ []) }, true)

-- The value of `sysfs_read_bool` for the trimmed text of the file.
unfoldable pub parse_gpio_value : List ℕ → Option Bool
parse_gpio_value text =
    if text_eq text (codes "1")
    then some true
    else if text_eq text (codes "0")
    then some false
    else none

-- The LEDs are low while they are lit. The arguments are what the two reads give.
unfoldable pub read_hw_state : Option Bool → Option Bool → Option AtxState
read_hw_state pwr hdd = elim pwr [
  | none ↦ none
  | some pwr_raw ↦ elim hdd [
    | none ↦ none
    | some hdd_raw ↦ some (record { power = not pwr_raw; hdd = not hdd_raw })
  ]
]

module _ (succeeds : ℕ → Bool) where
  unfoldable pub sysfs_write : Effect → Action
  sysfs_write e s =
      if succeeds s.tried
      then (record s { tried = s.tried + 1; effects = s.effects ++ (e ∷ []) }, true)
      else (record s { tried = s.tried + 1 }, false)

  unfoldable pub init_output_pin : ℕ → Action
  unfolding sysfs_write and_then pause
  init_output_pin pin = and_then (sysfs_write (export pin)) (
      and_then (pause 50)
        (and_then (sysfs_write (direction pin true)) (sysfs_write (level pin false))))

  unfoldable pub init_input_pin : ℕ → Action
  unfolding sysfs_write and_then pause
  init_input_pin pin =
      and_then (sysfs_write (export pin)) (and_then (pause 50) (sysfs_write (direction pin false)))

  -- `swap(true)` comes before the pins are initialised.
  unfoldable pub init_pins : Action
  unfolding init_output_pin init_input_pin and_then
  init_pins = and_then (init_output_pin atx_power_pin) (
      and_then (init_output_pin atx_reset_pin)
        (and_then (init_input_pin atx_pwr_led_pin) (init_input_pin atx_hdd_led_pin)))

  -- The LEDs as read, when both reads succeed, and the cell of the state.
  unfoldable pub store_leds : Option AtxState → Atx → Atx
  store_leds none s = s
  store_leds (some state) s = record s { led_pwr = state.power; led_hdd = state.hdd }

  unfoldable pub init_state : Atx → Atx
  init_state s = elim s.atx_state [
    | none ↦ record s { atx_state = some (record { power = false; hdd = false }) }
    | some _ ↦ s
  ]

  unfoldable pub mount_atx_control : Option AtxState → Action
  unfolding store_leds init_state
  mount_atx_control read s =
      if s.mounted
      then (s, true)
      else (let (s', done) = init_pins (record s { mounted = true }) in
          if done then (init_state (store_leds read s'), true) else (s', false))

  unfoldable pub unmount_atx_control : Action
  unfolding and_also sysfs_write
  unmount_atx_control s =
      if s.mounted
      then (let release = and_also (sysfs_write (level atx_power_pin false)) (
            and_also (sysfs_write (level atx_reset_pin false)) (
              and_also (sysfs_write (unexport atx_power_pin)) (
                and_also (sysfs_write (unexport atx_reset_pin)) (
                  and_also (sysfs_write (unexport atx_pwr_led_pin))
                    (sysfs_write (unexport atx_hdd_led_pin)))))) in
          ((release (record s { mounted = false })).0, true))
      else (s, true)

  unfoldable pub pulse_output_pin : ℕ → ℕ → Action
  unfolding sysfs_write and_then pause
  pulse_output_pin pin duration_ms =
      and_then (sysfs_write (level pin true))
        (and_then (pause duration_ms) (sysfs_write (level pin false)))

  unfoldable pub press_atx_power_button : ℕ → Action
  press_atx_power_button duration_ms = pulse_output_pin atx_power_pin duration_ms

  unfoldable pub press_atx_reset_button : ℕ → Action
  press_atx_reset_button duration_ms = pulse_output_pin atx_reset_pin duration_ms

  unfoldable pub set_atx_power_action : List ℕ → Action
  unfolding press_atx_power_button press_atx_reset_button
  set_atx_power_action action s =
      if text_eq action (codes "power-short")
      then press_atx_power_button 200 s
      else if text_eq action (codes "power-long")
      then press_atx_power_button 5000 s
      else if text_eq action (codes "reset")
      then press_atx_reset_button 200 s
      else (s, false)

-- `get_atx_state`, with what the reads give; no other call holds the lock of the cell.
unfoldable pub get_atx_state : Option AtxState → Atx → Atx × Option AtxState
get_atx_state read s = if not s.mounted then (s, none) else elim read [
  | none ↦ (s, none)
  | some state ↦
      let s' = record s { led_pwr = state.power; led_hdd = state.hdd } in
      (elim s.atx_state [ none ↦ s' | some _ ↦ record s' { atx_state = some state } ], some state)
]

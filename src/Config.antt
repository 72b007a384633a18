-- ===== src/Config.antt =====
-- app/src/config/types.rs: the configuration and its validation.
pub mod Default
pub mod Manager
pub mod Saved
pub mod Valid
mod Runs
use rustkvm.Common.{
  ℕ, ◌+◌, min, max, List, [], ◌∷◌, ◌++◌, Option, none, some, Bool, true, false, ◌&&◌, ◌||◌, not,
  any, length, if◌then◌else◌, ltb, leb, ◌==◌,
}
use rustkvm.Common.Text.{codes, text_eq, trim, between}

abbrev pub Text : Type 0
Text = List ℕ

abbrev pub max_macros_per_device : ℕ
max_macros_per_device = 25

abbrev pub max_steps_per_macro : ℕ
max_steps_per_macro = 10

abbrev pub max_keys_per_step : ℕ
max_keys_per_step = 10

abbrev pub min_step_delay : ℕ
min_step_delay = 50

abbrev pub max_step_delay : ℕ
max_step_delay = 2000

pub record KeyboardMacroStep : Type 0 where
  pub keys : List Text
  pub modifiers : List Text
  pub delay : ℕ

pub record KeyboardMacro : Type 0 where
  pub id : Text
  pub name : Text
  pub steps : List KeyboardMacroStep
  pub sort_order : Option ℕ

pub record WakeOnLanDevice : Type 0 where
  pub name : Text
  pub mac_address : Text

pub record UsbConfig : Type 0 where
  pub vendor_id : Text
  pub product_id : Text
  pub serial_number : Text
  pub manufacturer : Text
  pub product : Text

pub record UsbDevices : Type 0 where
  pub absolute_mouse : Bool
  pub relative_mouse : Bool
  pub keyboard : Bool
  pub mass_storage : Bool

pub record NetworkConfig : Type 0 where
  pub hostname : Option Text
  pub http_proxy : Option Text
  pub domain : Option Text
  pub ipv4_mode : Text
  pub ipv6_mode : Text
  pub lldp_mode : Text
  pub lldp_tx_tlvs : List Text
  pub mdns_mode : Text
  pub time_sync_mode : Text
  pub time_sync_ordering : List Text
  pub time_sync_disable_fallback : Bool
  pub time_sync_parallel : ℕ

pub record Config : Type 0 where
  pub cloud_url : Text
  pub cloud_app_url : Text
  pub cloud_token : Option Text
  pub google_identity : Option Text
  pub jiggler_enabled : Bool
  pub auto_update_enabled : Bool
  pub include_pre_release : Bool
  pub hashed_password : Option Text
  pub local_auth_token : Option Text
  pub api_token_sha256 : Option Text
  pub api_token_created_at : Option Text
  pub local_auth_mode : Text
  pub local_loopback_only : Bool
  pub keyboard_layout : Text
  pub edid_string : Option Text
  pub active_extension : Option Text
  pub display_rotation : Text
  pub display_max_brightness : ℕ
  pub display_dim_after_sec : ℕ
  pub display_off_after_sec : ℕ
  pub tls_mode : Text
  pub default_log_level : Text
  pub device_id : Text
  pub wake_on_lan_devices : List WakeOnLanDevice
  pub keyboard_macros : List KeyboardMacro
  pub usb_config : UsbConfig
  pub usb_devices : UsbDevices
  pub network_config : NetworkConfig
  pub audio_enabled : Bool
  pub host_display_disable_when_idle : Bool

-- `Ord::clamp`.
abbrev pub clamp : ℕ → ℕ → ℕ → ℕ
clamp lo hi n = max lo (min hi n)

-- `KeyboardMacroStep::validate`: the step, and whether it is `Ok`.
unfoldable pub validate_step : KeyboardMacroStep → KeyboardMacroStep × Bool
validate_step step =
    if ltb max_keys_per_step (length step.keys)
    then (step, false)
    else (record step { delay = clamp min_step_delay max_step_delay step.delay }, true)

-- The steps up to the first that is refused, which ends the loop.
unfoldable pub validate_steps : List KeyboardMacroStep → List KeyboardMacroStep × Bool
unfolding validate_step
validate_steps [] = ([], true)
validate_steps (step ∷ steps) =
    let (step', fine) = validate_step step in
    let (steps', rest) = validate_steps steps in
    if fine then (step' ∷ steps', rest) else (step' ∷ steps, false)

-- `KeyboardMacro::validate`.
unfoldable pub validate_macro : KeyboardMacro → KeyboardMacro × Bool
unfolding validate_steps
validate_macro m =
    let (steps', fine) = validate_steps m.steps in
    if text_eq (trim m.name) []
    then (m, false)
    else if length m.steps == 0
    then (m, false)
    else if ltb max_steps_per_macro (length m.steps)
    then (m, false)
    else (record m { steps = steps' }, fine)

-- All macros are validated, and it is told whether each is `Ok`.
unfoldable pub validate_macros : List KeyboardMacro → List KeyboardMacro × Bool
unfolding validate_macro
validate_macros [] = ([], true)
validate_macros (m ∷ ms) =
    let (m', fine) = validate_macro m in
    let (ms', rest) = validate_macros ms in (m' ∷ ms', fine && rest)

abbrev pub is_hex_digit : ℕ → Bool
is_hex_digit c = between b'0' c b'9' || between b'a' c b'f' || between b'A' c b'F'

abbrev pub all_hex : Text → Bool
all_hex [] = true
all_hex (c ∷ s) = is_hex_digit c && all_hex s

-- `u16::from_str_radix(s, 16).is_ok()` for a text of four characters at most: a sign `+` may stand before
-- the digits.
unfoldable pub parses_hex : Text → Bool
parses_hex [] = false
parses_hex (c ∷ []) = is_hex_digit c
parses_hex (c ∷ d ∷ s) = (c == b'+' || is_hex_digit c) && all_hex (d ∷ s)

-- The text behind a prefix `0x` or `0X`, if it has one.
unfoldable pub strip_hex_prefix : Text → Text
strip_hex_prefix [] = []
strip_hex_prefix (c ∷ []) = c ∷ []
strip_hex_prefix (c ∷ d ∷ s) = if c == b'0' && (d == b'x' || d == b'X') then s else c ∷ d ∷ s

unfoldable pub is_valid_usb_id : Text → Bool
unfolding parses_hex strip_hex_prefix
is_valid_usb_id s =
    let hex = strip_hex_prefix s in not (text_eq hex []) && leb (length hex) 4 && parses_hex hex

abbrev pub one_of : List Text → Text → Bool
one_of names s = any (text_eq s) names

-- The checks that change nothing.
unfoldable pub checks : Config → Bool
unfolding is_valid_usb_id
checks c =
    leb (length c.keyboard_macros) max_macros_per_device
    && one_of (codes "0" ∷ codes "90" ∷ codes "180" ∷ codes "270" ∷ []) c.display_rotation
    && one_of ([] ∷ codes "self-signed" ∷ codes "custom" ∷ []) c.tls_mode
    && is_valid_usb_id c.usb_config.vendor_id
    && is_valid_usb_id c.usb_config.product_id
    && (text_eq c.local_auth_mode []
        || one_of (codes "password" ∷ codes "noPassword" ∷ []) c.local_auth_mode)

-- `Config::validate`: the configuration as it is left, and whether there are no errors.
unfoldable pub validate : Config → Config × Bool
unfolding validate_macros checks
validate c =
    let (macros, fine) = validate_macros c.keyboard_macros in
    (
      record c {
        keyboard_macros = macros;
        network_config = record c.network_config {
          time_sync_parallel = clamp 1 16 c.network_config.time_sync_parallel;
        };
      },
      checks c && fine,
    )

unfoldable pub is_setup_required : Config → Bool
is_setup_required c = text_eq c.local_auth_mode []

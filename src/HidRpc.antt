-- ===== src/HidRpc.antt =====
-- crates/rkvm-proto/src/hidrpc.rs: the message frame of the HID-RPC protocol. A byte slice is a list of
-- numbers below 256; an `anyhow` error is a constructor that carries what its text prints.
pub mod Payload
pub mod MacroReport
pub mod Frame
mod Runs
use rustkvm.Common.{ℕ, List, [], ◌∷◌, if◌then◌else◌, ◌==◌}

pub data MessageType : Type 0 where
  handshake keyboard_report pointer_report wheel_report keypress_report mouse_report : MessageType
  keyboard_macro_report cancel_keyboard_macro_report keypress_keep_alive_report : MessageType
  keyboard_led_state keydown_state keyboard_macro_state : MessageType

-- The discriminants of the `repr(u8)` enum.
unfoldable pub to_byte : MessageType → ℕ
to_byte handshake = 0x01
to_byte keyboard_report = 0x02
to_byte pointer_report = 0x03
to_byte wheel_report = 0x04
to_byte keypress_report = 0x05
to_byte mouse_report = 0x06
to_byte keyboard_macro_report = 0x07
to_byte cancel_keyboard_macro_report = 0x08
to_byte keypress_keep_alive_report = 0x09
to_byte keyboard_led_state = 0x32
to_byte keydown_state = 0x33
to_byte keyboard_macro_state = 0x34

pub data Error : Type 0 where
  unknown_message_type : ℕ → Error
  invalid_data_length : ℕ → Error
  invalid_message_type : MessageType → Error
  payload_too_short : ℕ → Error
  pointer_payload_length : ℕ → Error
  invalid_length : ℕ → ℕ → Error

-- `anyhow::Result`. `panic` is no Rust value: an index or a slice was out of range.
pub data Result {ℓ} (A : Type ℓ) : Type ℓ where
  ok : A → Result A
  err : Error → Result A
  panic : Result A

infixl 5 ◌>>=◌
abbrev pub ◌>>=◌ {ℓ κ} : {X : Type ℓ} {Y : Type κ} → Result X → (X → Result Y) → Result Y
panic >>= next = panic
err reason >>= next = err reason
ok value >>= next = next value

unfoldable pub from_byte : ℕ → Result MessageType
from_byte b =
    if b == 0x01
    then ok handshake
    else if b == 0x02
    then ok keyboard_report
    else if b == 0x03
    then ok pointer_report
    else if b == 0x04
    then ok wheel_report
    else if b == 0x05
    then ok keypress_report
    else if b == 0x06
    then ok mouse_report
    else if b == 0x07
    then ok keyboard_macro_report
    else if b == 0x08
    then ok cancel_keyboard_macro_report
    else if b == 0x09
    then ok keypress_keep_alive_report
    else if b == 0x32
    then ok keyboard_led_state
    else if b == 0x33
    then ok keydown_state
    else if b == 0x34
    then ok keyboard_macro_state
    else err (unknown_message_type b)

pub record Message : Type 0 where
  pub type : MessageType
  pub payload : List ℕ

unfoldable pub unmarshal : List ℕ → Result Message
unmarshal [] = err (invalid_data_length 0)
unmarshal (ty ∷ rest) = do t ← from_byte ty; ok (record { type = t; payload = rest })

unfoldable pub marshal : Message → List ℕ
marshal m = to_byte m.type ∷ m.payload

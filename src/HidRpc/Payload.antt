-- ===== src/HidRpc/Payload.antt =====
-- crates/rkvm-proto/src/hidrpc.rs: the message constructors and the typed views of a payload.
use rustkvm.Common.{ℕ, List, [], ◌∷◌, ◌++◌, Bool, true, false, ◌==◌, length}
use rustkvm.Common.Bytes.{be_bytes32, from_be32}
use rustkvm.Common.Int.{ℤ, i8_to_u8, u8_to_i8, i32_to_u32, u32_to_i32}
use rustkvm.HidRpc.{MessageType, Message, Result, ok, err}
use rustkvm.HidRpc.{invalid_message_type, payload_too_short, pointer_payload_length}

abbrev pub version : ℕ
version = 0x01

abbrev pub u8_from : Bool → ℕ
u8_from true = 1
u8_from false = 0

unfoldable pub new_handshake_message : Message
new_handshake_message = record { type = MessageType.handshake; payload = version ∷ [] }

unfoldable pub new_keyboard_report_message : ℕ → List ℕ → Message
new_keyboard_report_message modifier keys = record {
  type = MessageType.keyboard_report;
  payload = modifier ∷ keys;
}

unfoldable pub new_keyboard_led_message : ℕ → Message
new_keyboard_led_message state_byte = record {
  type = MessageType.keyboard_led_state;
  payload = state_byte ∷ [];
}

unfoldable pub new_keydown_state_message : ℕ → List ℕ → Message
new_keydown_state_message modifier keys = record {
  type = MessageType.keydown_state;
  payload = modifier ∷ keys;
}

unfoldable pub new_keyboard_macro_state_message : Bool → Bool → Message
new_keyboard_macro_state_message state is_paste = record {
  type = MessageType.keyboard_macro_state;
  payload = u8_from state ∷ u8_from is_paste ∷ [];
}

unfoldable pub new_pointer_report_message : ℤ → ℤ → ℕ → Message
new_pointer_report_message x y button = record {
  type = MessageType.pointer_report;
  payload = be_bytes32 (i32_to_u32 x) ++ (be_bytes32 (i32_to_u32 y) ++ (button ∷ []));
}

unfoldable pub new_mouse_report_message : ℤ → ℤ → ℕ → Message
new_mouse_report_message dx dy button = record {
  type = MessageType.mouse_report;
  payload = i8_to_u8 dx ∷ i8_to_u8 dy ∷ button ∷ [];
}

pub record KeypressReport : Type 0 where
  pub key : ℕ
  pub press : Bool

pub record KeyboardReport : Type 0 where
  pub modifier : ℕ
  pub keys : List ℕ

pub record PointerReport : Type 0 where
  pub x : ℤ
  pub y : ℤ
  pub button : ℕ

pub record MouseReport : Type 0 where
  pub dx : ℤ
  pub dy : ℤ
  pub button : ℕ

keypress_payload : List ℕ → Result KeypressReport
keypress_payload (key ∷ press ∷ rest) = ok (record { key = key; press = press == 1 })
keypress_payload payload = err (payload_too_short (length payload))

keyboard_payload : List ℕ → Result KeyboardReport
keyboard_payload [] = err (payload_too_short 0)
keyboard_payload (modifier ∷ keys) = ok (record { modifier = modifier; keys = keys })

-- `try_into` a `&[u8; 9]` fails at every other length.
pointer_payload : List ℕ → Result PointerReport
pointer_payload (a ∷ b ∷ c ∷ d ∷ e ∷ f ∷ g ∷ h ∷ button ∷ []) = ok (record {
  x = u32_to_i32 (from_be32 a b c d);
  y = u32_to_i32 (from_be32 e f g h);
  button = button;
})
pointer_payload payload = err (pointer_payload_length (length payload))

mouse_payload : List ℕ → Result MouseReport
mouse_payload (dx ∷ dy ∷ button ∷ rest) =
    ok (record { dx = u8_to_i8 dx; dy = u8_to_i8 dy; button = button })
mouse_payload payload = err (payload_too_short (length payload))

-- The test of the message type that each view begins with: a clause for the type, and the rest.
unfoldable pub keypress_report : Message → Result KeypressReport
unfolding keypress_payload
keypress_report m = elim m.type [
  | MessageType.keypress_report ↦ keypress_payload m.payload
  | other ↦ err (invalid_message_type other)
]

unfoldable pub keyboard_report : Message → Result KeyboardReport
unfolding keyboard_payload
keyboard_report m = elim m.type [
  | MessageType.keyboard_report ↦ keyboard_payload m.payload
  | other ↦ err (invalid_message_type other)
]

unfoldable pub pointer_report : Message → Result PointerReport
unfolding pointer_payload
pointer_report m = elim m.type [
  | MessageType.pointer_report ↦ pointer_payload m.payload
  | other ↦ err (invalid_message_type other)
]

unfoldable pub mouse_report : Message → Result MouseReport
unfolding mouse_payload
mouse_report m = elim m.type [
  | MessageType.mouse_report ↦ mouse_payload m.payload
  | other ↦ err (invalid_message_type other)
]

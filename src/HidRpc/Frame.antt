-- ===== src/HidRpc/Frame.antt =====
-- What the frame and the fixed-size payloads of crates/rkvm-proto/src/hidrpc.rs promise.
use rustkvm.Common.{ℕ, ◌≡◌, refl, ◌/◌, ◌%◌, ◌↔◌, List, [], ◌∷◌, arith}
use rustkvm.Common.Int.{
  ℤ, IsI8, IsI32, i32_to_u32, u32_to_i32, u32_to_i32-i32_to_u32, i32_to_u32-lt, u8_to_i8-i8_to_u8,
}
use rustkvm.Common.Bytes.{from_be32, from_be32-be_bytes32}
use rustkvm.HidRpc.{MessageType, Message, ok, ◌>>=◌, to_byte, from_byte, unmarshal, marshal}
use rustkvm.HidRpc.Payload.{
  pointer_report, mouse_report, new_pointer_report_message, new_mouse_report_message,
}

pub from_byte-to_byte : (t : MessageType) → from_byte (to_byte t) ≡ ok t
unfolding from_byte to_byte
from_byte-to_byte MessageType.handshake = refl
from_byte-to_byte _ = refl

pub to_byte-from_byte : (b : ℕ) {t : MessageType} → from_byte b ≡ ok t → to_byte t ≡ b
unfolding from_byte to_byte
to_byte-from_byte b h = ground arith

-- A frame is accepted exactly when it is the marshalled form of a message, and it is read as that
-- message.
pub unmarshal_iff : (buf : List ℕ) (m : Message) → (unmarshal buf ≡ ok m) ↔ (marshal m ≡ buf)
unfolding unmarshal marshal
unmarshal_iff [] m = (λ h. cc, λ h. cc)
unmarshal_iff (b ∷ rest) m = (
  λ h. ground (arith, to_byte-from_byte b {t = m.type}),
  λ h. ground (arith, from_byte-to_byte m.type),
)

i32_reads :
    (x : ℤ)
    → IsI32 x
    → let w = i32_to_u32 x in
      u32_to_i32 (from_be32 (w / 16777216 % 256) (w / 65536 % 256) (w / 256 % 256) (w % 256)) ≡ x
i32_reads x h =
    rw (from_be32-be_bytes32 (i32_to_u32 x) (i32_to_u32-lt x)) (u32_to_i32-i32_to_u32 x h)

-- What the client sends as an absolute pointer position is what the device reads from the frame, for
-- every pair of `i32` coordinates.
pub pointer_report-unmarshal :
    (x y : ℤ) (button : ℕ)
    → IsI32 x
    → IsI32 y
    → (unmarshal (marshal (new_pointer_report_message x y button)) >>= pointer_report)
      ≡ ok (record { x = x; y = y; button = button })
unfolding pointer_report new_pointer_report_message
pointer_report-unmarshal x y button hx hy =
    rw ((unmarshal_iff _ (new_pointer_report_message x y button)).1 refl)
      (λ i. ok (record { x = i32_reads x hx i; y = i32_reads y hy i; button = button }))

-- A relative mouse report is read back for every pair of `i8` movements.
pub mouse_report-unmarshal :
    (dx dy : ℤ) (button : ℕ)
    → IsI8 dx
    → IsI8 dy
    → (unmarshal (marshal (new_mouse_report_message dx dy button)) >>= mouse_report)
      ≡ ok (record { dx = dx; dy = dy; button = button })
unfolding mouse_report new_mouse_report_message
mouse_report-unmarshal dx dy button hx hy =
    rw ((unmarshal_iff _ (new_mouse_report_message dx dy button)).1 refl) (λ i.
      ok (record {
        dx = u8_to_i8-i8_to_u8 dx hx i;
        dy = u8_to_i8-i8_to_u8 dy hy i;
        button = button;
      }))

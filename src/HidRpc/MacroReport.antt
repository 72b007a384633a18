-- ===== src/HidRpc/MacroReport.antt =====
-- crates/rkvm-proto/src/hidrpc.rs: `keyboard_macro_report`, the parser of a macro's steps.
pub mod Parse
pub mod Total
use rustkvm.Common.{
  ℕ, zero, suc, ◌+◌, ◌-◌, ◌*◌, List, [], ◌∷◌, ◌++◌, Bool, if◌then◌else◌, ◌==◌, ltb, length, take,
  drop, get_elem?, none, some,
}
use rustkvm.Common.Bytes.{from_be16, from_be32}
use rustkvm.HidRpc.{
  MessageType, Message, Result, ok, err, panic, ◌>>=◌, invalid_message_type, payload_too_short,
  invalid_length,
}

abbrev pub hid_key_buffer_size : ℕ
hid_key_buffer_size = 6

-- `keys` is the array `[u8; HID_KEY_BUFFER_SIZE]`, `delay` a `u16`.
pub record KeyboardMacroStep : Type 0 where
  pub modifier : ℕ
  pub keys : List ℕ
  pub delay : ℕ

pub record KeyboardMacroReport : Type 0 where
  pub is_paste : Bool
  pub step_count : ℕ
  pub steps : List KeyboardMacroStep

-- `s[i]` and `s[from..to]`, which panic out of range.
byte_at : List ℕ → ℕ → Result ℕ
byte_at s i = elim (get_elem? s i) [ none ↦ panic | some b ↦ ok b ]

slice : List ℕ → ℕ → ℕ → Result (List ℕ)
slice s from to =
    if ltb to from
    then panic
    else if ltb (length s) to
    then panic
    else ok (take (to - from) (drop from s))

abbrev pub step_size : ℕ
step_size = 1 + hid_key_buffer_size + 2

-- One round of the loop at `offset`.
read_step : List ℕ → ℕ → Result KeyboardMacroStep
read_step s offset = do
  modifier ← byte_at s offset
  keys ← slice s (offset + 1) (offset + 1 + hid_key_buffer_size)
  let delay_off = offset + 1 + hid_key_buffer_size
  hi ← byte_at s delay_off
  lo ← byte_at s (delay_off + 1)
  ok (record { modifier = modifier; keys = keys; delay = from_be16 hi lo })

-- The rounds left, the offset and the steps read so far.
read_steps : ℕ → List ℕ → ℕ → List KeyboardMacroStep → Result (List KeyboardMacroStep)
read_steps zero s offset steps = ok steps
read_steps (suc n) s offset steps = do
  step ← read_step s offset
  read_steps n s (offset + step_size) (steps ++ (step ∷ []))

-- `expected` is at most 5 + 9 * (2 ^ 32 - 1), so the `u64` arithmetic does not wrap.
macro_payload : List ℕ → Result KeyboardMacroReport
unfolding byte_at
macro_payload s = if ltb (length s) 5 then err (payload_too_short (length s)) else do
  paste ← byte_at s 0
  a ← byte_at s 1
  b ← byte_at s 2
  c ← byte_at s 3
  d ← byte_at s 4
  let step_count = from_be32 a b c d
  let expected = 5 + step_count * step_size
  if length s == expected
      then (do
        steps ← read_steps step_count s 5 []
        ok (record { is_paste = paste == 1; step_count = step_count; steps = steps }))
      else err (invalid_length (length s) expected)

unfoldable pub keyboard_macro_report : Message → Result KeyboardMacroReport
unfolding macro_payload read_steps read_step byte_at slice
keyboard_macro_report m = elim m.type [
  | MessageType.keyboard_macro_report ↦ macro_payload m.payload
  | other ↦ err (invalid_message_type other)
]

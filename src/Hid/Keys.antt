-- ===== src/Hid/Keys.antt =====
-- app/src/hardware/usb/hid.rs: the state of the keys held down and the lock LEDs.
use Prim.Native.Nat.{bit_and, bit_or}
use rustkvm.Common.{
  ℕ, zero, suc, ◌+◌, ◌-◌, ◌^◌, List, [], ◌∷◌, Bool, true, false, not, ◌&&◌, ◌||◌, if◌then◌else◌,
  leb, ◌==◌, length, get_elem?, set, replicate, map, Option, none, some,
}

abbrev pub hid_key_buffer_size : ℕ
hid_key_buffer_size = 6

pub record KeysDownState : Type 0 where
  pub modifier : ℕ
  pub keys : List ℕ

abbrev pub no_keys_down : KeysDownState
no_keys_down = record { modifier = 0; keys = replicate hid_key_buffer_size 0 }

unfoldable pub modifier_mask : ℕ → Option ℕ
modifier_mask key = if leb 0xE0 key && leb key 0xE7 then some (2 ^ (key - 0xE0)) else none

-- The loop that looks for the first slot with the key or 0, from index `i` on.
unfoldable pub find_slot : ℕ → ℕ → List ℕ → Option ℕ
find_slot key i [] = none
find_slot key i (slot ∷ rest) =
    let found = find_slot key (i + 1) rest in if slot == key || slot == 0 then some i else found

-- `buf[i]`, at an index in range.
abbrev pub at : List ℕ → ℕ → ℕ
at buf i = elim (get_elem? buf i) [ none ↦ 0 | some b ↦ b ]

-- The rounds `buf[j] = buf[j + 1]` of the loop over `j`.
unfoldable pub shift_down : ℕ → ℕ → List ℕ → List ℕ
shift_down zero j buf = buf
shift_down (suc n) j buf = shift_down n (j + 1) (set buf j (at buf (j + 1)))

-- The `match` on the slot found.
unfoldable pub apply_slot : ℕ → Bool → List ℕ → Option ℕ → List ℕ
apply_slot key press buf (some i) =
    if press
    then set buf i key
    else if not (at buf i == 0)
    then set (shift_down (length buf - 1 - i) i buf) (length buf - 1) 0
    else buf
apply_slot key press buf none = if press then map (λ _. 0x01) buf else buf

unfoldable pub apply_keypress : KeysDownState → ℕ → Bool → KeysDownState
apply_keypress state key press = elim (modifier_mask key) [
  | some mask ↦
      if press
      then record state { modifier = bit_or state.modifier mask }
      else record state { modifier = bit_and state.modifier (255 - mask) }
  | none ↦
      if key == 0
      then state
      else record state { keys = apply_slot key press state.keys (find_slot key 0 state.keys) }
]

pub record KeyboardState : Type 0 where
  pub num_lock : Bool
  pub caps_lock : Bool
  pub scroll_lock : Bool
  pub compose : Bool
  pub kana : Bool

abbrev pub keyboard_led_valid_masks : ℕ
keyboard_led_valid_masks = 31

unfoldable pub parse_keyboard_state : ℕ → KeyboardState
parse_keyboard_state byte = record {
  num_lock = not (bit_and byte 1 == 0);
  caps_lock = not (bit_and byte 2 == 0);
  scroll_lock = not (bit_and byte 4 == 0);
  compose = not (bit_and byte 8 == 0);
  kana = not (bit_and byte 16 == 0);
}

-- One byte that the LED reader takes from the gadget: the new state and whether the callback runs.
unfoldable pub on_led_byte :
    (KeyboardState → KeyboardState → Bool) → KeyboardState → ℕ → KeyboardState × Bool
on_led_byte same state b =
    let new_state = parse_keyboard_state b in
    if not (bit_and b (255 - keyboard_led_valid_masks) == 0)
    then (state, false)
    else if same state new_state
    then (state, false)
    else (new_state, true)

-- ===== src/Hid/Device.antt =====
-- app/src/hardware/usb/hid.rs: the state of `Hid` and the reports that its methods queue. Time is counted
-- in milliseconds and passed in as the `now` of each call.
use rustkvm.Common.{
  ℕ, zero, suc, ◌+◌, ◌-◌, ◌/◌, ◌%◌, List, [], ◌∷◌, ◌++◌, Bool, true, false, not, if◌then◌else◌, ltb,
  leb, length, set, take, replicate, Option, none, some,
}
use rustkvm.Common.Int.{ℤ, pos, negsuc, i8_to_u8, i32_to_u32}
use rustkvm.Hid.Keys.{KeysDownState, hid_key_buffer_size, no_keys_down}
use rustkvm.Hid.Indexes.{keypress_checked}

-- The commands of the writer thread. The acknowledgement channel of `CloseFiles` is the writer's count of
-- acknowledgements.
pub data HidWriteCmd : Type 0 where
  keyboard : List ℕ → HidWriteCmd
  abs_mouse : List ℕ → HidWriteCmd
  abs_wheel : List ℕ → HidWriteCmd
  rel_mouse : List ℕ → HidWriteCmd
  close_files : HidWriteCmd

abbrev pub hid_write_queue_depth : ℕ
hid_write_queue_depth = 64

abbrev pub hid_warn_interval : ℕ
hid_warn_interval = 5000

-- `queue` is what the bounded channel holds, oldest first; `writer_alive` is that its receiver is there;
-- `reader` that the LED reader thread runs.
pub record Hid : Type 0 where
  pub keys_down : KeysDownState
  pub queue : List HidWriteCmd
  pub writer_alive : Bool
  pub io_suspended : Bool
  pub reader : Bool
  pub last_user_input : ℕ
  pub last_full_warn : Option ℕ

-- The errors of `Hid`, and a panic.
pub data Error : Type 0 where
  panicked : Error
  writer_terminated : Error
  path_not_found : Error
  open_failed : Error

unfoldable pub new : ℕ → Hid
new now = record {
  keys_down = no_keys_down;
  queue = [];
  writer_alive = true;
  io_suspended = false;
  reader = false;
  last_user_input = now;
  last_full_warn = none;
}

-- Whether a warning is due: none was made, or the last one is old enough.
abbrev pub warn_due : Option ℕ → ℕ → Bool
warn_due none now = true
warn_due (some t) now = leb hid_warn_interval (now - t)

-- `try_send` reports a closed channel before a full one.
unfoldable pub enqueue : ℕ → Hid → HidWriteCmd → Hid × Option Error
enqueue now h0 cmd =
    let h = record h0 { last_user_input = now } in
    if h.io_suspended
    then (h, none)
    else if not h.writer_alive
    then (h, some writer_terminated)
    else if ltb (length h.queue) hid_write_queue_depth
    then (record h { queue = h.queue ++ (cmd ∷ []) }, none)
    else (if warn_due h.last_full_warn now then record h { last_full_warn = some now } else h, none)

-- `for (slot, k) in slots.iter_mut().zip(keys)`.
unfoldable pub copy_keys : List ℕ → List ℕ → List ℕ
copy_keys [] keys = []
copy_keys (slot ∷ slots) [] = slot ∷ slots
copy_keys (slot ∷ slots) (k ∷ keys) = k ∷ copy_keys slots keys

-- `for (i, k) in keys.enumerate() { report[2 + i] = k }`, from index `i` on; `none` is the panic of an index
-- out of range.
unfoldable pub fill_report : ℕ → List ℕ → List ℕ → Option (List ℕ)
fill_report i [] report = some report
fill_report i (k ∷ keys) report =
    let rest = fill_report (i + 1) keys (set report (2 + i) k) in
    if ltb (2 + i) (length report) then rest else none

unfoldable pub keyboard_bytes : ℕ → List ℕ → Option (List ℕ)
unfolding fill_report
keyboard_bytes modifier keys =
    fill_report 0 (take hid_key_buffer_size keys) (set (replicate 8 0) 0 modifier)

unfoldable pub write_keyboard_report : ℕ → Hid → ℕ → List ℕ → Hid × Option Error
write_keyboard_report now h modifier keys = elim (keyboard_bytes modifier keys) [
  | none ↦ (h, some panicked)
  | some report ↦ enqueue now h (keyboard report)
]

unfoldable pub keyboard_report : ℕ → Hid → ℕ → List ℕ → Hid × Option Error
keyboard_report now h modifier keys =
    let state : KeysDownState = record {
      modifier = modifier;
      keys = copy_keys (replicate hid_key_buffer_size 0) (take hid_key_buffer_size keys);
    } in
    write_keyboard_report now (record h { keys_down = state }) modifier keys

unfoldable pub keypress_report : ℕ → Hid → ℕ → Bool → Hid × Option Error
keypress_report now h key press = elim (keypress_checked h.keys_down key press) [
  | none ↦ (h, some panicked)
  | some state ↦
      write_keyboard_report now (record h { keys_down = state }) state.modifier state.keys
]

-- `x as u16` keeps the low 16 bits of the `i32`.
abbrev pub i32_to_u16 : ℤ → ℕ
i32_to_u16 x = i32_to_u32 x % 65536

unfoldable pub abs_mouse_bytes : ℤ → ℤ → ℕ → List ℕ
abs_mouse_bytes x y buttons =
    1
    ∷ buttons
    ∷ i32_to_u16 x % 256
    ∷ i32_to_u16 x / 256 % 256
    ∷ i32_to_u16 y % 256
    ∷ i32_to_u16 y / 256 % 256
    ∷ []

unfoldable pub abs_mouse_report : ℕ → Hid → ℤ → ℤ → ℕ → Hid × Option Error
abs_mouse_report now h x y buttons = enqueue now h (abs_mouse (abs_mouse_bytes x y buttons))

unfoldable pub abs_mouse_wheel_report : ℕ → Hid → ℤ → Hid × Option Error
abs_mouse_wheel_report now h (pos zero) = (h, none)
abs_mouse_wheel_report now h (pos (suc n)) =
    enqueue now h (abs_wheel (2 ∷ i8_to_u8 (pos (suc n)) ∷ []))
abs_mouse_wheel_report now h (negsuc n) = enqueue now h (abs_wheel (2 ∷ i8_to_u8 (negsuc n) ∷ []))

unfoldable pub rel_mouse_report : ℕ → Hid → ℤ → ℤ → ℕ → Hid × Option Error
rel_mouse_report now h dx dy buttons =
    enqueue now h (rel_mouse (buttons ∷ i8_to_u8 dx ∷ i8_to_u8 dy ∷ 0 ∷ []))

-- `suspend_io` up to the send of `CloseFiles`: the flag, and the LED reader stopped and joined.
unfoldable pub suspend_begin : Hid → Hid
suspend_begin h = record h { io_suspended = true; reader = false }

-- `open_keyboard_hid_file`: `found` is that the node exists, `opened` that it opens and the thread starts.
unfoldable pub open_keyboard_hid_file : Bool → Bool → Hid → Hid × Option Error
open_keyboard_hid_file found opened h =
    if h.reader
    then (h, none)
    else if not found
    then (h, some path_not_found)
    else if not opened
    then (h, some open_failed)
    else (record h { reader = true }, none)

-- `resume_io`, with what the wait for the node ends in.
unfoldable pub resume_io : Bool → Bool → Hid → Hid × Option Error
unfolding open_keyboard_hid_file
resume_io found opened h = open_keyboard_hid_file found opened (record h { io_suspended = false })

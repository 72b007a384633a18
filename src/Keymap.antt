-- ===== src/Keymap.antt =====
-- crates/rkvm-proto/src/keymap.rs: key names, the characters of a US keyboard, key combinations and text
-- as macro steps. A text is the list of its code points.
pub mod Macro
mod Runs
pub mod Typing
pub mod Text
pub mod Names
pub mod Combo
use Prim.Native.String.{String}
use rustkvm.Common.{
  ℕ, zero, suc, ◌+◌, ◌-◌, List, [], ◌∷◌, ◌++◌, Option, none, some, Bool, true, false, ◌&&◌,
  if◌then◌else◌, ◌==◌, bit_or, take, set, contains, replicate,
}
use rustkvm.Common.Text.{
  codes, match_text, between, char_lowercase, to_ascii_lowercase, parse_u8, print_u8_small, split,
  trim,
}
use rustkvm.HidRpc.MacroReport.{KeyboardMacroStep, hid_key_buffer_size}

-- The arms of the `match` on a modifier's code.
abbrev modifier_codes : List (String × ℕ)
modifier_codes =
    ("ControlLeft", 1)
    ∷ ("ShiftLeft", 2)
    ∷ ("AltLeft", 4)
    ∷ ("MetaLeft", 8)
    ∷ ("OSLeft", 8)
    ∷ ("ControlRight", 16)
    ∷ ("ShiftRight", 32)
    ∷ ("AltRight", 64)
    ∷ ("MetaRight", 128)
    ∷ ("OSRight", 128)
    ∷ []

pub code_to_modifier : List ℕ → Option ℕ
unfolding match_text
code_to_modifier name = match_text name modifier_codes

-- The arms of the `match` on a key's code, in the source's order.
abbrev usage_codes : List (String × ℕ)
usage_codes =
    ("KeyA", 0x04)
    ∷ ("KeyB", 0x05)
    ∷ ("KeyC", 0x06)
    ∷ ("KeyD", 0x07)
    ∷ ("KeyE", 0x08)
    ∷ ("KeyF", 0x09)
    ∷ ("KeyG", 0x0a)
    ∷ ("KeyH", 0x0b)
    ∷ ("KeyI", 0x0c)
    ∷ ("KeyJ", 0x0d)
    ∷ ("KeyK", 0x0e)
    ∷ ("KeyL", 0x0f)
    ∷ ("KeyM", 0x10)
    ∷ ("KeyN", 0x11)
    ∷ ("KeyO", 0x12)
    ∷ ("KeyP", 0x13)
    ∷ ("KeyQ", 0x14)
    ∷ ("KeyR", 0x15)
    ∷ ("KeyS", 0x16)
    ∷ ("KeyT", 0x17)
    ∷ ("KeyU", 0x18)
    ∷ ("KeyV", 0x19)
    ∷ ("KeyW", 0x1a)
    ∷ ("KeyX", 0x1b)
    ∷ ("KeyY", 0x1c)
    ∷ ("KeyZ", 0x1d)
    ∷ ("Digit1", 0x1e)
    ∷ ("Digit2", 0x1f)
    ∷ ("Digit3", 0x20)
    ∷ ("Digit4", 0x21)
    ∷ ("Digit5", 0x22)
    ∷ ("Digit6", 0x23)
    ∷ ("Digit7", 0x24)
    ∷ ("Digit8", 0x25)
    ∷ ("Digit9", 0x26)
    ∷ ("Digit0", 0x27)
    ∷ ("Enter", 0x28)
    ∷ ("Escape", 0x29)
    ∷ ("Backspace", 0x2a)
    ∷ ("Tab", 0x2b)
    ∷ ("Space", 0x2c)
    ∷ ("Minus", 0x2d)
    ∷ ("Equal", 0x2e)
    ∷ ("BracketLeft", 0x2f)
    ∷ ("BracketRight", 0x30)
    ∷ ("Backslash", 0x31)
    ∷ ("Semicolon", 0x33)
    ∷ ("Quote", 0x34)
    ∷ ("Backquote", 0x35)
    ∷ ("Comma", 0x36)
    ∷ ("Period", 0x37)
    ∷ ("Slash", 0x38)
    ∷ ("CapsLock", 0x39)
    ∷ ("F1", 0x3a)
    ∷ ("F2", 0x3b)
    ∷ ("F3", 0x3c)
    ∷ ("F4", 0x3d)
    ∷ ("F5", 0x3e)
    ∷ ("F6", 0x3f)
    ∷ ("F7", 0x40)
    ∷ ("F8", 0x41)
    ∷ ("F9", 0x42)
    ∷ ("F10", 0x43)
    ∷ ("F11", 0x44)
    ∷ ("F12", 0x45)
    ∷ ("PrintScreen", 0x46)
    ∷ ("ScrollLock", 0x47)
    ∷ ("Pause", 0x48)
    ∷ ("Insert", 0x49)
    ∷ ("Home", 0x4a)
    ∷ ("PageUp", 0x4b)
    ∷ ("Delete", 0x4c)
    ∷ ("End", 0x4d)
    ∷ ("PageDown", 0x4e)
    ∷ ("ArrowRight", 0x4f)
    ∷ ("ArrowLeft", 0x50)
    ∷ ("ArrowDown", 0x51)
    ∷ ("ArrowUp", 0x52)
    ∷ ("NumLock", 0x53)
    ∷ ("NumpadDivide", 0x54)
    ∷ ("NumpadMultiply", 0x55)
    ∷ ("NumpadSubtract", 0x56)
    ∷ ("NumpadAdd", 0x57)
    ∷ ("NumpadEnter", 0x58)
    ∷ ("Numpad1", 0x59)
    ∷ ("Numpad2", 0x5a)
    ∷ ("Numpad3", 0x5b)
    ∷ ("Numpad4", 0x5c)
    ∷ ("Numpad5", 0x5d)
    ∷ ("Numpad6", 0x5e)
    ∷ ("Numpad7", 0x5f)
    ∷ ("Numpad8", 0x60)
    ∷ ("Numpad9", 0x61)
    ∷ ("Numpad0", 0x62)
    ∷ ("NumpadDecimal", 0x63)
    ∷ ("NumpadEqual", 0x67)
    ∷ ("IntlBackslash", 0x64)
    ∷ ("ContextMenu", 0x65)
    ∷ ("F13", 0x68)
    ∷ ("F14", 0x69)
    ∷ ("F15", 0x6a)
    ∷ ("F16", 0x6b)
    ∷ ("F17", 0x6c)
    ∷ ("F18", 0x6d)
    ∷ ("F19", 0x6e)
    ∷ ("F20", 0x6f)
    ∷ ("F21", 0x70)
    ∷ ("F22", 0x71)
    ∷ ("F23", 0x72)
    ∷ ("F24", 0x73)
    ∷ []

pub code_to_usage : List ℕ → Option ℕ
unfolding match_text
code_to_usage name = match_text name usage_codes

abbrev mod_left_shift : ℕ
mod_left_shift = 2

abbrev key_enter : ℕ
key_enter = 0x28

abbrev key_tab : ℕ
key_tab = 0x2b

abbrev key_space : ℕ
key_space = 0x2c

abbrev unshifted : ℕ → Option (ℕ × ℕ)
unshifted usage = some (0, usage)

abbrev shifted : ℕ → Option (ℕ × ℕ)
shifted usage = some (mod_left_shift, usage)

-- The arms for punctuation: the character, whether it is shifted, and the usage.
abbrev punctuation : List (ℕ × Bool × ℕ)
punctuation =
    (0x30, false, 0x27)
    ∷ (0x21, true, 0x1e)
    ∷ (0x40, true, 0x1f)
    ∷ (0x23, true, 0x20)
    ∷ (0x24, true, 0x21)
    ∷ (0x25, true, 0x22)
    ∷ (0x5e, true, 0x23)
    ∷ (0x26, true, 0x24)
    ∷ (0x2a, true, 0x25)
    ∷ (0x28, true, 0x26)
    ∷ (0x29, true, 0x27)
    ∷ (0x0a, false, key_enter)
    ∷ (0x09, false, key_tab)
    ∷ (0x20, false, key_space)
    ∷ (0x2d, false, 0x2d)
    ∷ (0x5f, true, 0x2d)
    ∷ (0x3d, false, 0x2e)
    ∷ (0x2b, true, 0x2e)
    ∷ (0x5b, false, 0x2f)
    ∷ (0x7b, true, 0x2f)
    ∷ (0x5d, false, 0x30)
    ∷ (0x7d, true, 0x30)
    ∷ (0x5c, false, 0x31)
    ∷ (0x7c, true, 0x31)
    ∷ (0x3b, false, 0x33)
    ∷ (0x3a, true, 0x33)
    ∷ (0x27, false, 0x34)
    ∷ (0x22, true, 0x34)
    ∷ (0x60, false, 0x35)
    ∷ (0x7e, true, 0x35)
    ∷ (0x2c, false, 0x36)
    ∷ (0x3c, true, 0x36)
    ∷ (0x2e, false, 0x37)
    ∷ (0x3e, true, 0x37)
    ∷ (0x2f, false, 0x38)
    ∷ (0x3f, true, 0x38)
    ∷ []

match_punctuation : ℕ → List (ℕ × Bool × ℕ) → Option (ℕ × ℕ)
match_punctuation c [] = none
match_punctuation c ((d, shift, usage) ∷ arms) =
    let rest = match_punctuation c arms in
    if c == d then (if shift then shifted usage else unshifted usage) else rest

pub char_to_keystroke : ℕ → Option (ℕ × ℕ)
unfolding match_punctuation
char_to_keystroke c =
    if between b'a' c b'z'
    then unshifted (0x04 + (c - b'a'))
    else if between b'A' c b'Z'
    then shifted (0x04 + (c - b'A'))
    else if between b'1' c b'9'
    then unshifted (0x1e + (c - b'1'))
    else match_punctuation c punctuation

pub data Key : Type 0 where
  modifier : ℕ → Key
  usage : ℕ → Key

abbrev modifier_aliases : List (String × ℕ)
modifier_aliases =
    ("ctrl", 1)
    ∷ ("control", 1)
    ∷ ("lctrl", 1)
    ∷ ("shift", 2)
    ∷ ("lshift", 2)
    ∷ ("alt", 4)
    ∷ ("option", 4)
    ∷ ("lalt", 4)
    ∷ ("meta", 8)
    ∷ ("win", 8)
    ∷ ("windows", 8)
    ∷ ("super", 8)
    ∷ ("cmd", 8)
    ∷ ("command", 8)
    ∷ ("gui", 8)
    ∷ ("lmeta", 8)
    ∷ ("rctrl", 16)
    ∷ ("rshift", 32)
    ∷ ("ralt", 64)
    ∷ ("altgr", 64)
    ∷ ("rmeta", 128)
    ∷ ("rwin", 128)
    ∷ ("rcmd", 128)
    ∷ []

abbrev code_aliases : List (String × String)
code_aliases =
    ("enter", "Enter")
    ∷ ("return", "Enter")
    ∷ ("esc", "Escape")
    ∷ ("escape", "Escape")
    ∷ ("tab", "Tab")
    ∷ ("space", "Space")
    ∷ ("spacebar", "Space")
    ∷ ("backspace", "Backspace")
    ∷ ("bksp", "Backspace")
    ∷ ("delete", "Delete")
    ∷ ("del", "Delete")
    ∷ ("insert", "Insert")
    ∷ ("ins", "Insert")
    ∷ ("home", "Home")
    ∷ ("end", "End")
    ∷ ("pageup", "PageUp")
    ∷ ("pgup", "PageUp")
    ∷ ("pagedown", "PageDown")
    ∷ ("pgdn", "PageDown")
    ∷ ("up", "ArrowUp")
    ∷ ("arrowup", "ArrowUp")
    ∷ ("down", "ArrowDown")
    ∷ ("arrowdown", "ArrowDown")
    ∷ ("left", "ArrowLeft")
    ∷ ("arrowleft", "ArrowLeft")
    ∷ ("right", "ArrowRight")
    ∷ ("arrowright", "ArrowRight")
    ∷ ("capslock", "CapsLock")
    ∷ ("caps", "CapsLock")
    ∷ ("printscreen", "PrintScreen")
    ∷ ("prtsc", "PrintScreen")
    ∷ ("prtscr", "PrintScreen")
    ∷ ("scrolllock", "ScrollLock")
    ∷ ("pause", "Pause")
    ∷ ("break", "Pause")
    ∷ ("numlock", "NumLock")
    ∷ ("menu", "ContextMenu")
    ∷ ("contextmenu", "ContextMenu")
    ∷ ("apps", "ContextMenu")
    ∷ []

alias_to_modifier : List ℕ → Option ℕ
unfolding match_text
alias_to_modifier lower = match_text lower modifier_aliases

alias_to_code : List ℕ → List ℕ
unfolding match_text
alias_to_code lower = elim (match_text lower code_aliases) [ some name ↦ codes name | none ↦ [] ]

abbrev map_usage : Option ℕ → Option Key
map_usage none = none
map_usage (some u) = some (usage u)

-- A name of one character, read without its shift.
single_char : List ℕ → Option Key
single_char (c ∷ []) = elim (char_to_keystroke (char_lowercase c)) [
  | none ↦ none
  | some (m, u) ↦ some (usage u)
]
single_char _ = none

-- `lower.strip_prefix('f')` and the number behind it, if that is in 1..=24.
function_key : List ℕ → Option ℕ
function_key [] = none
function_key (c ∷ digits) =
    if c == b'f'
    then elim (parse_u8 digits) [ none ↦ none | some n ↦ if between 1 n 24 then some n else none ]
    else none

-- `resolve_key` behind the two tables of DOM codes.
resolve_alias : List ℕ → List ℕ → Option Key
resolve_alias name lower = elim (alias_to_modifier lower) [
  | some bit ↦ some (modifier bit)
  | none ↦ elim (code_to_usage (alias_to_code lower)) [
    | some u ↦ some (usage u)
    | none ↦ elim (function_key lower) [
      | some n ↦ map_usage (code_to_usage (b'F' ∷ print_u8_small n))
      | none ↦ single_char name
    ]
  ]
]

pub resolve_key : List ℕ → Option Key
resolve_key name = elim (code_to_modifier name) [
  | some bit ↦ some (modifier bit)
  | none ↦ elim (code_to_usage name) [
    | some u ↦ some (usage u)
    | none ↦ resolve_alias name (to_ascii_lowercase name)
  ]
]

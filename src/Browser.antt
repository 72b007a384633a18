-- ===== src/Browser.antt =====
-- crates/rkvm-web/src/hid/mod.rs: the keyboard listeners of the browser. What the page and the DOM say of
-- an event are arguments: its code, whether the page owns the keyboard, whether a connection is there.
pub mod Keyboard
mod Runs
use Prim.Native.Nat.{bit_and, bit_or}
use rustkvm.Common.{
  ℕ, ◌-◌, List, [], ◌∷◌, ◌++◌, Bool, true, false, not, ◌&&◌, ◌||◌, if◌then◌else◌, ltb, ◌==◌, length,
  filter, contains, replicate, Option, none, some,
}
use rustkvm.HidRpc.{marshal}
use rustkvm.HidRpc.Payload.{new_keyboard_report_message}
use rustkvm.Hid.Device.{copy_keys}
use rustkvm.Keymap.{code_to_modifier, code_to_usage}

pub record KbState : Type 0 where
  pub modifiers : ℕ
  pub keys : List ℕ

-- What a listener does: the new state, and the frame that it sends on the reliable channel.
abbrev pub Effect : Type 0
Effect = KbState × Option (List ℕ)

-- The six slots that `zip` fills.
unfoldable pub key_slots : List ℕ → List ℕ
unfolding copy_keys
key_slots keys = copy_keys (replicate 6 0) keys

unfoldable pub send_keyboard : Bool → KbState → Option (List ℕ)
unfolding key_slots
send_keyboard connected st =
    if connected
    then some (marshal (new_keyboard_report_message st.modifiers (key_slots st.keys)))
    else none

unfoldable pub press_usage : ℕ → KbState → KbState
press_usage usage st =
    if not (contains st.keys usage) && ltb (length st.keys) 6
    then record st { keys = st.keys ++ (usage ∷ []) }
    else st

-- The listener of `keydown`.
unfoldable pub keydown : Bool → Bool → List ℕ → KbState → Effect
unfolding send_keyboard press_usage
keydown local connected code st = if local then (st, none) else elim (code_to_modifier code) [
  | some bit ↦
      let st' = record st { modifiers = bit_or st.modifiers bit } in
      (st', send_keyboard connected st')
  | none ↦ elim (code_to_usage code) [
    | some usage ↦ let st' = press_usage usage st in (st', send_keyboard connected st')
    | none ↦ (st, none)
  ]
]

-- A key is released locally without a frame when it was not held.
unfoldable pub release : Bool → Bool → Bool → KbState → Effect
unfolding send_keyboard
release local held connected st =
    if local && not held then (st, none) else (st, send_keyboard connected st)

unfoldable pub release_usage : ℕ → KbState → KbState
release_usage usage st = record st { keys = filter (λ k. not (k == usage)) st.keys }

-- The listener of `keyup`. `!bit` is the complement in eight bits.
unfoldable pub keyup : Bool → Bool → List ℕ → KbState → Effect
unfolding release release_usage
keyup local connected code st = elim (code_to_modifier code) [
  | some bit ↦
      release local (not (bit_and st.modifiers bit == 0)) connected
        (record st { modifiers = bit_and st.modifiers (255 - bit) })
  | none ↦ elim (code_to_usage code) [
    | some usage ↦ release local (contains st.keys usage) connected (release_usage usage st)
    | none ↦ (st, none)
  ]
]

-- The two frames of `send_key_combo`.
unfoldable pub send_key_combo : ℕ → List ℕ → List (List ℕ)
send_key_combo modifiers keys =
    marshal (new_keyboard_report_message modifiers keys)
    ∷ marshal (new_keyboard_report_message 0 [])
    ∷ []

-- ===== src/Keymap/Macro.antt =====
-- crates/rkvm-proto/src/keymap.rs: `parse_combo`, `combo_to_macro_steps` and `text_to_macro_steps`.
use rustkvm.Common.{
  ◌≡◌, refl, ℕ, ◌+◌, List, [], ◌∷◌, ◌++◌, if◌then◌else◌, ◌==◌, bit_or, take, set, contains,
  replicate, none, some, true, false,
}
use rustkvm.Common.Text.{split, trim}
use rustkvm.HidRpc.MacroReport.{KeyboardMacroStep, hid_key_buffer_size}
use rustkvm.Keymap.{Key, resolve_key, char_to_keystroke}

-- The `anyhow` errors, with what their texts print.
pub data Error : Type 0 where
  empty_key : Error
  too_many_keys : Error
  unknown_key : List ℕ → Error
  unsupported_character : ℕ → ℕ → Error

pub data Result {ℓ} (T : Type ℓ) : Type ℓ where
  err : Error → Result T
  ok : T → Result T

infixl 5 ◌>>=◌
abbrev pub ◌>>=◌ {ℓ κ} : {T : Type ℓ} {U : Type κ} → Result T → (T → Result U) → Result U
err reason >>= next = err reason
ok value >>= next = next value

pub >>=-eq-ok {ℓ κ} :
    {T : Type ℓ} {U : Type κ} (first : Result T) (next : T → Result U) {last : U}
    → (first >>= next) ≡ ok last
    → (middle : T) × (first ≡ ok middle) × (next middle ≡ ok last)
>>=-eq-ok (err reason) next h = cc
>>=-eq-ok (ok value) next h = (value, refl, h)

-- The variables of the loop in `parse_combo`.
pub record Combo : Type 0 where
  pub modifier : ℕ
  pub keys : List ℕ
  pub count : ℕ

-- The body of the loop for a resolved key.
unfoldable pub add_key : Combo → Key → Result Combo
add_key c (Key.modifier bit) = ok (record c { modifier = bit_or c.modifier bit })
add_key c (Key.usage u) =
    if contains (take c.count c.keys) u
    then ok c
    else if c.count == hid_key_buffer_size
    then err too_many_keys
    else ok (record c { keys = set c.keys c.count u; count = c.count + 1 })

unfoldable pub add_token : Combo → List ℕ → Result Combo
add_token c [] = err empty_key
add_token c (x ∷ token) = elim (resolve_key (x ∷ token)) [
  | none ↦ err (unknown_key (x ∷ token))
  | some key ↦ add_key c key
]

unfoldable pub add_tokens : Combo → List (List ℕ) → Result Combo
add_tokens c [] = ok c
add_tokens c (piece ∷ pieces) = do c' ← add_token c (trim piece); add_tokens c' pieces

abbrev pub no_keys : List ℕ
no_keys = replicate hid_key_buffer_size 0

abbrev pub empty_combo : Combo
empty_combo = record { modifier = 0; keys = no_keys; count = 0 }

unfoldable pub parse_combo : List ℕ → Result (ℕ × List ℕ)
unfolding add_tokens
parse_combo combo = do c ← add_tokens empty_combo (split b'+' combo); ok (c.modifier, c.keys)

abbrev pub press_and_release : ℕ → List ℕ → ℕ → ℕ → List KeyboardMacroStep
press_and_release modifier keys hold_ms gap_ms =
    record { modifier = modifier; keys = keys; delay = hold_ms }
    ∷ record { modifier = 0; keys = no_keys; delay = gap_ms }
    ∷ []

unfoldable pub combo_to_macro_steps : List ℕ → ℕ → Result (List KeyboardMacroStep)
combo_to_macro_steps combo hold_ms = do
  (modifier, keys) ← parse_combo combo
  ok (press_and_release modifier keys hold_ms 0)

-- The loop over the characters from `index` on.
unfoldable pub text_steps :
    ℕ → List ℕ → ℕ → List KeyboardMacroStep → Result (List KeyboardMacroStep)
text_steps index [] delay_ms steps = ok steps
text_steps index (c ∷ text) delay_ms steps = elim (c == 0x0d) [
  | true ↦ text_steps (index + 1) text delay_ms steps
  | false ↦ elim (char_to_keystroke c) [
    | none ↦ err (unsupported_character c index)
    | some (modifier, u) ↦
        text_steps (index + 1) text delay_ms
          (steps ++ press_and_release modifier (set no_keys 0 u) delay_ms delay_ms)
  ]
]

unfoldable pub text_to_macro_steps : List ℕ → ℕ → Result (List KeyboardMacroStep)
unfolding text_steps
text_to_macro_steps text delay_ms = text_steps 0 text delay_ms []

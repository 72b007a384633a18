-- ===== src/Keymap/Runs.antt =====
-- Concrete texts, names and combinations.
use rustkvm.Common.{List, [], ◌∷◌, ◌≡◌, refl, ℕ, arith, inl, inr}
use rustkvm.Common.Text.{codes, split, trim, char_lowercase}
use rustkvm.Keymap.{
  Key, resolve_alias, alias_to_modifier, resolve_key, char_to_keystroke, code_to_modifier,
  code_to_usage,
}
use rustkvm.Keymap.Macro.{parse_combo, add_token, add_key}
use rustkvm.Keymap.Text.{IsTypeable}
use rustkvm.Keymap.Combo.{parse_combo_ok, Resolves, modifiers, usages, Holds}

abbrev hi : List ℕ
hi = codes "Hi!"

e_acute-untypeable : ¬ IsTypeable 233
unfolding char_to_keystroke
e_acute-untypeable (inl e) = absurd (omega arith)
e_acute-untypeable (inr n) = n refl

parse_combo_ok_example :
    (ks : List Key) × Resolves (split 0x2B (codes "Ctrl+Alt+Delete")) ks
    × (5 ≡ modifiers 0 ks)
    × Holds (0x4C ∷ 0 ∷ 0 ∷ 0 ∷ 0 ∷ 0 ∷ []) (usages [] ks)
unfolding parse_combo split add_token trim resolve_key code_to_modifier code_to_usage resolve_alias
    alias_to_modifier char_lowercase add_key
parse_combo_ok_example = parse_combo_ok (codes "Ctrl+Alt+Delete") refl

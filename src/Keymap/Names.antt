-- ===== src/Keymap/Names.antt =====
-- crates/rkvm-proto/src/keymap.rs: what a key's name can resolve to.
use Prim.Native.String.{String}
use rustkvm.Common.{
  ℕ, ◌≤◌, ◌≡◌, refl, List, [], ◌∷◌, Bool, none, some, Option, arith, Bool-cases, Option-cases, ◌⊎◌,
  inl, inr,
}
use mathlib.Core.Path.{subst}
use rustkvm.Common.Predicates.{All}
use rustkvm.Common.Text.{
  match_text, text_eq, codes, char_lowercase, to_ascii_lowercase, print_u8_small,
}
use rustkvm.Keymap.{
  Key, modifier, usage, code_to_modifier, code_to_usage, modifier_codes, usage_codes,
  modifier_aliases, alias_to_modifier, alias_to_code, function_key, single_char, resolve_alias,
  resolve_key, char_to_keystroke, match_punctuation, punctuation, map_usage,
}

match_text-All :
    (P : ℕ → Type 0) (s : List ℕ) (arms : List (String × ℕ)) (v : ℕ)
    → All (λ arm. P arm.1) arms
    → match_text s arms ≡ some v
    → P v
unfolding match_text
match_text-All P s [] v h e = cc
match_text-All P s ((name, w) ∷ arms) v h e = elim (Bool-cases (text_eq s (codes name))) [
  | inl hit ↦ let q : w ≡ v = ground arith in subst P q h.0
  | inr miss ↦ match_text-All P s arms v h.1 (ground arith)
]

-- A single bit of the modifier byte, and the usages of the keyboard page that the tables name.
abbrev pub IsModifierBit : ℕ → Type 0
IsModifierBit b = (b ≡ 1) ⊎ (b ≡ 2) ⊎ (b ≡ 4) ⊎ (b ≡ 8) ⊎ (b ≡ 16) ⊎ (b ≡ 32) ⊎ (b ≡ 64) ⊎ (b ≡ 128)

abbrev pub IsUsage : ℕ → Type 0
IsUsage u = (0x04 ≤ u) × (u ≤ 0x73)

abbrev pub IsKey : Key → Type 0
IsKey (modifier b) = IsModifierBit b
IsKey (usage u) = IsUsage u

code_to_usage-IsUsage : (name : List ℕ) {u : ℕ} → code_to_usage name ≡ some u → IsUsage u
unfolding code_to_usage
code_to_usage-IsUsage name {u} e = match_text-All IsUsage name usage_codes u (omega arith) e

code_to_modifier-IsModifierBit :
    (name : List ℕ) {b : ℕ} → code_to_modifier name ≡ some b → IsModifierBit b
unfolding code_to_modifier
code_to_modifier-IsModifierBit name {b} e =
    match_text-All IsModifierBit name modifier_codes b (omega arith) e

single_char_caseless :
    (a b : List ℕ) → to_ascii_lowercase a ≡ to_ascii_lowercase b → single_char a ≡ single_char b
unfolding single_char
single_char_caseless [] [] h = refl
single_char_caseless [] (d ∷ t) h = cc
single_char_caseless (c ∷ s) [] h = cc
single_char_caseless (c ∷ []) (d ∷ []) h =
    let e : char_lowercase c ≡ char_lowercase d = cc in rw (e, single_char)
single_char_caseless (c ∷ []) (d ∷ e ∷ t) h = cc
single_char_caseless (c ∷ e ∷ s) (d ∷ []) h = cc
single_char_caseless (c ∷ e ∷ s) (d ∷ f ∷ t) h = refl

resolve_alias_of_char :
    (a b lower : List ℕ)
    → single_char a ≡ single_char b
    → resolve_alias a lower ≡ resolve_alias b lower
unfolding resolve_alias
resolve_alias_of_char a b lower h = ground arith

-- The names that are no DOM codes are read without regard to the case of their ASCII letters.
pub resolve_key_caseless :
    (a b : List ℕ)
    → code_to_modifier a ≡ none
    → code_to_usage a ≡ none
    → code_to_modifier b ≡ none
    → code_to_usage b ≡ none
    → to_ascii_lowercase a ≡ to_ascii_lowercase b
    → resolve_key a ≡ resolve_key b
unfolding resolve_key
resolve_key_caseless a b am au bm bu h =
    rw (am, au, bm, bu, resolve_key)
      (rw h (resolve_alias_of_char a b (to_ascii_lowercase b) (single_char_caseless a b h)))

alias_to_modifier-IsModifierBit :
    (lower : List ℕ) {b : ℕ} → alias_to_modifier lower ≡ some b → IsModifierBit b
unfolding alias_to_modifier
alias_to_modifier-IsModifierBit lower {b} e =
    match_text-All IsModifierBit lower modifier_aliases b (omega arith) e

match_punctuation-IsUsage :
    (c : ℕ) (arms : List (ℕ × Bool × ℕ)) (m u : ℕ)
    → All (λ a. IsUsage a.2) arms
    → match_punctuation c arms ≡ some (m, u)
    → IsUsage u
unfolding match_punctuation
match_punctuation-IsUsage c [] m u h e = cc
match_punctuation-IsUsage c ((d, shift, v) ∷ arms) m u h e =
    ground (arith, match_punctuation-IsUsage c arms m u h.1)

char_to_keystroke-IsUsage : (c m u : ℕ) → char_to_keystroke c ≡ some (m, u) → IsUsage u
unfolding char_to_keystroke
char_to_keystroke-IsUsage c m u e =
    ground (arith, match_punctuation-IsUsage c punctuation m u (omega arith))

single_char-IsKey : (name : List ℕ) (k : Key) → single_char name ≡ some k → IsKey k
unfolding single_char
single_char-IsKey (c ∷ []) k e = elim (Option-cases (char_to_keystroke (char_lowercase c))) [
  | inl n ↦ ground arith
  | inr ((m, u), s) ↦
      let q : usage u ≡ k = ground arith in
      subst IsKey q (char_to_keystroke-IsUsage (char_lowercase c) m u s)
]
single_char-IsKey [] k e = cc
single_char-IsKey (c ∷ d ∷ s) k e = cc

usage_IsKey :
    (o : Option ℕ) (k : Key) → ((u : ℕ) → o ≡ some u → IsUsage u) → map_usage o ≡ some k → IsKey k
usage_IsKey none k h e = cc
usage_IsKey (some u) k h e = let q : usage u ≡ k = cc in subst IsKey q (h u refl)

resolve_alias-IsKey : (name lower : List ℕ) (k : Key) → resolve_alias name lower ≡ some k → IsKey k
unfolding resolve_alias
resolve_alias-IsKey name lower k e = elim (Option-cases (alias_to_modifier lower)) [
  | inr (b, q) ↦
      let r : modifier b ≡ k = ground arith in
      subst IsKey r (alias_to_modifier-IsModifierBit lower q)
  | inl q ↦ elim (Option-cases (code_to_usage (alias_to_code lower))) [
    | inr (u, q1) ↦
        let r : usage u ≡ k = ground arith in
        subst IsKey r (code_to_usage-IsUsage (alias_to_code lower) q1)
    | inl q1 ↦ elim (Option-cases (function_key lower)) [
      | inr (n, q2) ↦
          usage_IsKey (code_to_usage (b'F' ∷ print_u8_small n)) k
            (λ u. code_to_usage-IsUsage (b'F' ∷ print_u8_small n)) (ground arith)
      | inl q2 ↦ single_char-IsKey name k (ground arith)
    ]
  ]
]

-- Whatever name is resolved, the key is one bit of the modifier byte or a usage from 0x04 to 0x73: no
-- name yields an empty key, an error code or a modifier's usage.
pub resolve_key-IsKey : (name : List ℕ) (k : Key) → resolve_key name ≡ some k → IsKey k
unfolding resolve_key
resolve_key-IsKey name k e = elim (Option-cases (code_to_modifier name)) [
  | inr (b, q) ↦
      let r : modifier b ≡ k = ground arith in subst IsKey r (code_to_modifier-IsModifierBit name q)
  | inl q ↦ elim (Option-cases (code_to_usage name)) [
    | inr (u, q1) ↦
        let r : usage u ≡ k = ground arith in subst IsKey r (code_to_usage-IsUsage name q1)
    | inl q1 ↦ resolve_alias-IsKey name (to_ascii_lowercase name) k (ground arith)
  ]
]

-- ===== src/Keymap/Typing.antt =====
-- crates/rkvm-proto/src/keymap.rs: the US layout that `char_to_keystroke` types on, read the other way round.
use rustkvm.Common.{
  ℕ, ◌+◌, ◌-◌, ◌≤◌, ◌<◌, ◌≡◌, ◌≢◌, refl, List, [], ◌∷◌, Bool, true, not, ◌&&◌, if◌then◌else◌, ltb,
  ◌==◌, ltb→lt, none, some, arith, Bool-cases, inl, inr,
}
use rustkvm.Common.Bytes.{all_below, all_below_sound}
use rustkvm.Common.Text.{between}
use rustkvm.Common.Predicates.{All}
use rustkvm.Keymap.{char_to_keystroke, match_punctuation, punctuation}

-- The US layout of the HID usage tables: the two characters of a key, plain and shifted.
us_punctuation : ℕ → ℕ × ℕ
us_punctuation u =
    if u == 0x1e
    then (b'1', b'!')
    else if u == 0x1f
    then (b'2', b'@')
    else if u == 0x20
    then (b'3', b'#')
    else if u == 0x21
    then (b'4', b'$')
    else if u == 0x22
    then (b'5', b'%')
    else if u == 0x23
    then (b'6', b'^')
    else if u == 0x24
    then (b'7', b'&')
    else if u == 0x25
    then (b'8', b'*')
    else if u == 0x26
    then (b'9', b'(')
    else if u == 0x27
    then (b'0', b')')
    else if u == 0x28
    then (0x0a, 0x0a)
    else if u == 0x2b
    then (0x09, 0x09)
    else if u == 0x2c
    then (0x20, 0x20)
    else if u == 0x2d
    then (b'-', b'_')
    else if u == 0x2e
    then (b'=', b'+')
    else if u == 0x2f
    then (b'[', 0x7b)
    else if u == 0x30
    then (b']', 0x7d)
    else if u == 0x31
    then (0x5c, b'|')
    else if u == 0x33
    then (b';', b':')
    else if u == 0x34
    then (0x27, 0x22)
    else if u == 0x35
    then (b'`', b'~')
    else if u == 0x36
    then (b',', b'<')
    else if u == 0x37
    then (b'.', b'>')
    else (b'/', b'?')

us_key : ℕ → ℕ × ℕ
unfolding us_punctuation
us_key u = if between 0x04 u 0x1d then (b'a' + (u - 4), b'A' + (u - 4)) else us_punctuation u

-- The character that a host reads when the key of usage `u` goes down under `modifier`.
unfoldable pub us_char : ℕ → ℕ → ℕ
unfolding us_key
us_char modifier u = if modifier == 2 then (us_key u).1 else (us_key u).0

-- A keystroke that types `c`: on the US layout its key, with or without shift, reads `c`.
types : ℕ → ℕ × ℕ → Bool
types c (m, u) = us_char m u == c && not (u == 0)

keystroke_types_b : ℕ → Bool
keystroke_types_b c = elim (char_to_keystroke c) [ none ↦ true | some s ↦ types c s ]

keystroke_table : all_below 128 keystroke_types_b ≡ true
unfolding keystroke_types_b all_below char_to_keystroke types us_char
keystroke_table = refl

match_punctuation_high :
    (c : ℕ) (arms : List (ℕ × Bool × ℕ))
    → All (λ a. a.0 < 128) arms
    → 128 ≤ c
    → match_punctuation c arms ≡ none
unfolding match_punctuation
match_punctuation_high c [] h hc = refl
match_punctuation_high c ((d, shift, u) ∷ arms) h hc =
    ground (arith, match_punctuation_high c arms h.1 hc)

keystroke_high : (c : ℕ) → 128 ≤ c → char_to_keystroke c ≡ none
unfolding char_to_keystroke
keystroke_high c h = ground (arith, match_punctuation_high c punctuation (omega arith) h)

keystroke_low : (c : ℕ) → c < 128 → keystroke_types_b c ≡ true
keystroke_low c h = all_below_sound 128 keystroke_types_b c keystroke_table h

-- On the US layout the key that is pressed for a character reads that character, and it is a key.
pub us_char-char_to_keystroke :
    (c m u : ℕ) → char_to_keystroke c ≡ some (m, u) → (us_char m u ≡ c) × (u ≢ 0)
unfolding keystroke_types_b types
us_char-char_to_keystroke c m u h = elim (Bool-cases (ltb c 128)) [
  | inl low ↦ ground (arith, keystroke_low c (ltb→lt c 128 low))
  | inr high ↦ cc (h, keystroke_high c (ground arith))
]

-- ===== src/Common/Text.antt =====
-- Texts as lists of code points, and what the program uses of Rust's `str` and `char`.
use Prim.Native.Char.{code}
use Prim.Native.String.{String}
use rustkvm.Common.{
  ℕ, ◌+◌, ◌-◌, ◌*◌, ◌/◌, ◌%◌, ◌≡◌, List, [], ◌∷◌, ◌++◌, map, reverse, Option, none, some, Bool,
  true, false, ◌&&◌, ◌||◌, if◌then◌else◌, ltb, leb, ◌==◌, arith,
}

abbrev pub codes : String → List ℕ
codes String.[] = []
codes (String.◌∷◌ c s) = code c ∷ codes s

abbrev pub text_eq : List ℕ → List ℕ → Bool
text_eq [] [] = true
text_eq (a ∷ s) (b ∷ t) = a == b && text_eq s t
text_eq _ _ = false

-- A `match` of a text against literals: the first that is equal.
unfoldable pub match_text {ℓ} : {V : Type ℓ} → List ℕ → List (String × V) → Option V
match_text s [] = none
match_text s ((name, v) ∷ arms) = if text_eq s (codes name) then some v else match_text s arms

abbrev pub between : ℕ → ℕ → ℕ → Bool
between lo c hi = leb lo c && leb c hi

-- `char::to_ascii_lowercase`.
unfoldable pub char_lowercase : ℕ → ℕ
char_lowercase c = if between b'A' c b'Z' then c + 32 else c

abbrev pub to_ascii_lowercase : List ℕ → List ℕ
to_ascii_lowercase = map char_lowercase

-- `char::is_whitespace`: the Unicode property White_Space.
unfoldable pub is_whitespace : ℕ → Bool
is_whitespace c =
    between 0x09 c 0x0d
    || c == 0x20
    || c == 0x85
    || c == 0xa0
    || c == 0x1680
    || between 0x2000 c 0x200a
    || c == 0x2028
    || c == 0x2029
    || c == 0x202f
    || c == 0x205f
    || c == 0x3000

unfoldable pub trim_start : List ℕ → List ℕ
unfolding is_whitespace
trim_start [] = []
trim_start (c ∷ s) = let rest = trim_start s in if is_whitespace c then rest else c ∷ s

-- `str::trim`.
unfoldable pub trim : List ℕ → List ℕ
unfolding trim_start
trim s = reverse (trim_start (reverse (trim_start s)))

abbrev pub strip_prefix : List ℕ → List ℕ → Option (List ℕ)
strip_prefix [] s = some s
strip_prefix (c ∷ p) [] = none
strip_prefix (c ∷ p) (d ∷ s) = let rest = strip_prefix p s in if c == d then rest else none

-- The pieces of `str::split` behind a first piece of which `front` has been read.
unfoldable pub split_from : ℕ → List ℕ → List ℕ → List (List ℕ)
split_from separator front [] = front ∷ []
split_from separator front (c ∷ s) =
    let next = split_from separator [] s in
    let more = split_from separator (front ++ (c ∷ [])) s in
    if c == separator then front ∷ next else more

unfoldable pub split : ℕ → List ℕ → List (List ℕ)
unfolding split_from
split separator s = split_from separator [] s

-- The decimal digits of a `u8` behind `acc`; `none` where a character is no digit or the value passes
-- 255.
unfoldable pub parse_digits : ℕ → List ℕ → Option ℕ
parse_digits acc [] = some acc
parse_digits acc (c ∷ s) =
    let acc' = acc * 10 + (c - b'0') in
    let rest = parse_digits acc' s in if between b'0' c b'9' && leb acc' 255 then rest else none

-- `str::parse::<u8>`: a sign `+` may stand before the digits, and there is one digit at least.
unfoldable pub parse_u8 : List ℕ → Option ℕ
unfolding parse_digits
parse_u8 [] = none
parse_u8 (c ∷ []) = if c == b'+' then none else parse_digits 0 (c ∷ [])
parse_u8 (c ∷ d ∷ s) = if c == b'+' then parse_digits 0 (d ∷ s) else parse_digits 0 (c ∷ d ∷ s)

-- `format!("{n}")` for a number below 100.
abbrev pub print_u8_small : ℕ → List ℕ
print_u8_small n = if ltb n 10 then (b'0' + n) ∷ [] else (b'0' + n / 10) ∷ (b'0' + n % 10) ∷ []

pub char_lowercase_idem : (c : ℕ) → char_lowercase (char_lowercase c) ≡ char_lowercase c
unfolding char_lowercase
char_lowercase_idem c = ground arith

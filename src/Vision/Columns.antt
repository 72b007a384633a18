-- ===== src/Vision/Columns.antt =====
-- crates/rkvm-vision/src/rec.rs: the blank columns of a line.
use mathlib.Core.Path.{subst}
use rustkvm.Common.{
  ℕ, zero, suc, ◌+◌, ◌-◌, ◌≤◌, ◌<◌, ◌≡◌, List, [], ◌∷◌, some, Bool, true, false, length, drop,
  length-drop, ltb, arith, refl, sym, ap, ◌∙◌, Bool-cases, inl, inr,
}
use rustkvm.Vision.Lines.{is_blank, leading, skip_blank, back_to, find_last}

-- Every column from one on and before another is blank.
abbrev pub IsBlank : List Bool → ℕ → ℕ → Type 0
IsBlank blank from to = (i : ℕ) → from ≤ i → i < to → is_blank blank i ≡ true

leading-IsBlank : (bs : List Bool) (i : ℕ) → i < leading bs → is_blank bs i ≡ true
leading-IsBlank [] i h = absurd (omega arith)
leading-IsBlank (true ∷ bs) zero h = refl
leading-IsBlank (true ∷ bs) (suc i) h = leading-IsBlank bs i (omega arith)
leading-IsBlank (false ∷ bs) i h = absurd (omega arith)

is_blank-leading : (bs : List Bool) → is_blank bs (leading bs) ≡ false
is_blank-leading [] = refl
is_blank-leading (true ∷ bs) = is_blank-leading bs
is_blank-leading (false ∷ bs) = refl

is_blank-drop : (s i : ℕ) (bs : List Bool) → is_blank (drop s bs) i ≡ is_blank bs (s + i)
is_blank-drop zero i bs = let same : i ≡ 0 + i = omega arith in ap (is_blank bs) same
is_blank-drop (suc s) i [] = refl
is_blank-drop (suc s) i (b ∷ bs) =
    let same : suc (s + i) ≡ suc s + i = omega arith in
    is_blank-drop s i bs ∙ ap (is_blank (b ∷ bs)) same

pub skip_blank-IsBlank : (bs : List Bool) (s : ℕ) → IsBlank bs s (skip_blank bs s)
skip_blank-IsBlank bs s i low high =
    let here : s + (i - s) ≡ i = omega arith in
    sym (is_blank-drop s (i - s) bs ∙ ap (is_blank bs) here)
    ∙ leading-IsBlank (drop s bs) (i - s) (omega arith)

pub skip_blank-stop : (bs : List Bool) (s : ℕ) → is_blank bs (skip_blank bs s) ≡ false
skip_blank-stop bs s = sym (is_blank-drop s (leading (drop s bs)) bs) ∙ is_blank-leading (drop s bs)

-- A blank column is skipped.
skip_blank-lt : (bs : List Bool) (c : ℕ) → is_blank bs c ≡ true → c < skip_blank bs c
skip_blank-lt bs c h = elim (Bool-cases (ltb c (skip_blank bs c))) [
  | inl e ↦ ground arith
  | inr e ↦
      let same : skip_blank bs c ≡ c = ground arith in
      let stop = skip_blank-stop bs c in let clash = sym (ap (is_blank bs) same) ∙ stop in cc
]

back_to-bounds :
    (bs : List Bool) (start k : ℕ) → (start ≤ back_to bs start k) × (back_to bs start k ≤ start + k)
back_to-bounds bs start zero = (omega arith, omega arith)
back_to-bounds bs start (suc k) = let (low, high) = back_to-bounds bs start k in ground arith

back_to-IsBlank : (bs : List Bool) (start k : ℕ) → IsBlank bs (back_to bs start k) (start + k)
back_to-IsBlank bs start zero i low high = absurd (omega arith)
back_to-IsBlank bs start (suc k) i low high = elim (Bool-cases (is_blank bs (start + k))) [
  | inr e ↦ absurd (ground arith)
  | inl e ↦ elim (Bool-cases (ltb i (start + k))) [
    | inl f ↦ back_to-IsBlank bs start k i (ground arith) (ground arith)
    | inr f ↦ let same : i ≡ start + k = ground arith in ap (is_blank bs) same ∙ e
  ]
]

back_to-gt :
    (bs : List Bool) (start k : ℕ) → is_blank bs start ≡ false → 0 < k → start < back_to bs start k
back_to-gt bs start zero h some_columns = absurd (omega arith)
back_to-gt bs start (suc k) h some_columns = elim (Bool-cases (is_blank bs (start + k))) [
  | inr e ↦ ground arith
  | inl e ↦ elim (Bool-cases (ltb 0 k)) [
    | inl f ↦ let further = back_to-gt bs start k h (ground arith) in ground arith
    | inr f ↦
        let same : start + k ≡ start = ground arith in
        let clash = sym (ap (is_blank bs) same) ∙ e in cc
  ]
]

pub find_last-some :
    (bs : List Bool) (low k c : ℕ)
    → find_last bs low k ≡ some c
    → (low ≤ c) × (c < low + k) × (is_blank bs c ≡ true)
find_last-some bs low zero c h = cc
find_last-some bs low (suc k) c h = elim (Bool-cases (is_blank bs (low + k))) [
  | inl e ↦
      let same : c ≡ low + k = ground arith in (omega arith, omega arith, ap (is_blank bs) same ∙ e)
  | inr e ↦
      let (at_least, below, blank) = find_last-some bs low k c (ground arith) in
      (at_least, omega arith, blank)
]

pub IsBlank-join :
    (blank : List Bool) (a b c : ℕ) → IsBlank blank a b → IsBlank blank b c → IsBlank blank a c
IsBlank-join blank a b c h k i low high = elim (Bool-cases (ltb i b)) [
  | inl e ↦ h i low (ground arith)
  | inr e ↦ k i (ground arith) high
]

leading-le : (bs : List Bool) → leading bs ≤ length bs
leading-le [] = omega arith
leading-le (true ∷ bs) = let rest = leading-le bs in omega arith
leading-le (false ∷ bs) = omega arith

skip_blank-le : (bs : List Bool) (c : ℕ) → c ≤ length bs → skip_blank bs c ≤ length bs
skip_blank-le bs c h =
    let few = leading-le (drop c bs) in let rest = length-drop c bs in omega arith

-- The gap around a blank column behind the start of a segment.
pub gap_bounds :
    (blank : List Bool) (start c : ℕ)
    → is_blank blank start ≡ false
    → is_blank blank c ≡ true
    → start ≤ c
    → c ≤ length blank
    → (start < back_to blank start (c - start))
      × (back_to blank start (c - start) ≤ c)
      × (c < skip_blank blank c)
      × (skip_blank blank c ≤ length blank)
      × IsBlank blank (back_to blank start (c - start)) (skip_blank blank c)
gap_bounds blank start c stop gap low inside =
    let there : start + (c - start) ≡ c = omega arith in
    let moved = skip_blank-lt blank c gap in
    let (_, high) = back_to-bounds blank start (c - start) in
    let front =
      subst (λ t. IsBlank blank (back_to blank start (c - start)) t) there
        (back_to-IsBlank blank start (c - start)) in
    let columns =
      IsBlank-join blank (back_to blank start (c - start)) c (skip_blank blank c) front
        (skip_blank-IsBlank blank c) in
    elim (Bool-cases (ltb 0 (c - start))) [
      | inl e ↦ (
        back_to-gt blank start (c - start) stop (ground (arith, e)),
        omega arith,
        moved,
        skip_blank-le blank c inside,
        columns,
      )
      | inr e ↦
          let same : c ≡ start = ground (arith, e, low) in
          let clash = sym (ap (is_blank blank) same) ∙ gap in absurd cc
    ]

-- ===== src/Storage/Sanitize.antt =====
-- What `sanitize_filename` of app/src/hardware/usb/storage.rs lets through.
use mathlib.Core.Path.{subst}
use rustkvm.Common.{
  ℕ, List, [], ◌∷◌, ◌++◌, some, Bool, true, false, filter, contains, ◌==◌, ◌≡◌, refl, arith,
  contains-append, append-nil, append_assoc, ap, ◌∙◌, Option-cases, inl, inr, Bool-cases,
}
use rustkvm.Common.Text.{codes, text_eq, split, split_from}
use rustkvm.Common.Predicates.{All}
use rustkvm.Storage.Names.{
  Text, slash, is_absolute, is_component, components, last, file_name, sanitize_filename,
}

-- A piece of a split has no separator.
split_from-All :
    (k : ℕ) (front s : Text)
    → contains front k ≡ false
    → All (λ c. contains c k ≡ false) (split_from k front s)
unfolding split_from
split_from-All k front [] h = (h, tt)
split_from-All k front (c ∷ s) h = elim (Bool-cases (c == k)) [
  | inl e ↦ let rest = split_from-All k [] s refl in rw e (h, rest)
  | inr e ↦
      let alone = contains-append front (c ∷ []) k in
      let more = split_from-All k (front ++ (c ∷ [])) s (ground (arith, alone)) in rw e more
]

-- A text without the separator is its only piece.
split_from_whole :
    (k : ℕ) (front s : Text) → contains s k ≡ false → split_from k front s ≡ (front ++ s) ∷ []
unfolding split_from
split_from_whole k front [] h = rw (append-nil front) refl
split_from_whole k front (c ∷ s) h =
    let more = split_from_whole k (front ++ (c ∷ [])) s (ground arith) in
    let other : (c == k) ≡ false = ground arith in
    let joined = append_assoc front (c ∷ []) s in rw other (more ∙ ap (λ l. l ∷ []) joined)

filter-All :
    (p : Text → Bool) (P : Text → Type 0) (xs : List Text)
    → All P xs
    → All (λ x. P x × (p x ≡ true)) (filter p xs)
filter-All p P [] h = tt
filter-All p P (x ∷ xs) h = elim (Bool-cases (p x)) [
  | inl e ↦ let rest = filter-All p P xs h.1 in rw e ((h.0, e), rest)
  | inr e ↦ let rest = filter-All p P xs h.1 in rw e rest
]

last-All : (P : Text → Type 0) (xs : List Text) (x : Text) → All P xs → last xs ≡ some x → P x
last-All P [] x h e = cc
last-All P (y ∷ []) x h e = let same : y ≡ x = cc in subst P same h.0
last-All P (y ∷ z ∷ xs) x h e = last-All P (z ∷ xs) x h.1 e

-- A name within the folder of images: not empty, neither `.` nor `..`, and without a slash.
abbrev pub IsImageName : Text → Type 0
IsImageName name =
    (text_eq name [] ≡ false)
    × (text_eq name (codes ".") ≡ false)
    × (text_eq name (codes "..") ≡ false)
    × (contains name slash ≡ false)

last_component :
    (p base : Text)
    → last (components p) ≡ some base
    → (contains base slash ≡ false) × (is_component base ≡ true)
unfolding components split
last_component p base h =
    last-All (λ x. (contains x slash ≡ false) × (is_component x ≡ true)) (components p) base
      (filter-All is_component (λ x. contains x slash ≡ false) (split slash p)
        (split_from-All slash [] p refl))
      h

-- A name that is let through is a name within the folder of images.
pub sanitize_filename-IsImageName :
    (filename base : Text) → sanitize_filename filename ≡ some base → IsImageName base
unfolding sanitize_filename file_name
sanitize_filename-IsImageName filename base h = elim (Option-cases (last (components filename))) [
  | inl e ↦ ground (arith, e)
  | inr (c, e) ↦
      let (plain, component) = last_component filename c e in ground (arith, e, plain, component)
]

not_absolute : (name : Text) → contains name slash ≡ false → is_absolute name ≡ false
not_absolute [] h = refl
not_absolute (c ∷ name) h = ground arith

-- A name within the folder of images is let through as it is.
pub sanitize_filename_fixed : (name : Text) → IsImageName name → sanitize_filename name ≡ some name
unfolding sanitize_filename file_name components split
sanitize_filename_fixed name h =
    let whole = split_from_whole slash [] name h.3 in
    let relative = not_absolute name h.3 in rw whole (ground (arith, relative))

-- ===== src/Common/Map.antt =====
-- Maps with texts for keys, as association lists: what the program uses of `HashMap<String, _>` and of a
-- directory.
use mathlib.Core.Path.{subst}
use rustkvm.Common.{
  ℕ, ◌≡◌, refl, List, [], ◌∷◌, Option, none, some, Bool, true, false, not, filter, if◌then◌else◌,
  arith, Bool-cases, inl, inr,
}
use rustkvm.Common.Text.{text_eq}

pub text_eq_refl : (s : List ℕ) → text_eq s s ≡ true
text_eq_refl [] = refl
text_eq_refl (c ∷ s) = ground (arith, text_eq_refl s)

pub text_eq→≡ : (s t : List ℕ) → text_eq s t ≡ true → s ≡ t
text_eq→≡ [] [] h = refl
text_eq→≡ [] (d ∷ t) h = cc
text_eq→≡ (c ∷ s) [] h = cc
text_eq→≡ (c ∷ s) (d ∷ t) h =
    let head : c ≡ d = ground arith in let tail = text_eq→≡ s t (ground arith) in cc

abbrev pub Map {ℓ} : Type ℓ → Type ℓ
Map V = List (List ℕ × V)

module _ {ℓ} {V : Type ℓ} where
  abbrev pub lookup : List ℕ → Map V → Option V
  lookup k [] = none
  lookup k ((name, v) ∷ m) = let rest = lookup k m in if text_eq k name then some v else rest

  abbrev pub remove : List ℕ → Map V → Map V
  remove k m = filter (λ e. not (text_eq k e.0)) m

  abbrev pub insert : List ℕ → V → Map V → Map V
  insert k v m = (k, v) ∷ remove k m

  -- `HashMap::retain` by the value.
  abbrev pub retain : (V → Bool) → Map V → Map V
  retain p m = filter (λ e. p e.1) m

  pub lookup-insert : (k : List ℕ) (v : V) (m : Map V) → lookup k (insert k v m) ≡ some v
  lookup-insert k v m = let same = text_eq_refl k in ground (arith, same)

  pub lookup-remove : (k : List ℕ) (m : Map V) → lookup k (remove k m) ≡ none
  lookup-remove k [] = refl
  lookup-remove k ((name, v) ∷ m) =
      let rest = lookup-remove k m in
      elim (Bool-cases (text_eq k name)) [ inl e ↦ rw e rest | inr e ↦ rw (e, e) rest ]

  pub lookup-remove_other :
      (k other : List ℕ) (m : Map V)
      → text_eq k other ≡ false
      → lookup k (remove other m) ≡ lookup k m
  lookup-remove_other k other [] h = refl
  lookup-remove_other k other ((name, v) ∷ m) h =
      let rest = lookup-remove_other k other m h in
      elim (Bool-cases (text_eq other name)) [
        | inl e ↦
            let same = text_eq→≡ other name e in
            let differs : text_eq k name ≡ false = subst (λ n. text_eq k n ≡ false) same h in
            ground (arith, e, differs, rest)
        | inr e ↦ ground (arith, e, rest)
      ]

  pub lookup-insert_other :
      (k other : List ℕ) (v : V) (m : Map V)
      → text_eq k other ≡ false
      → lookup k (insert other v m) ≡ lookup k m
  lookup-insert_other k other v m h =
      let rest = lookup-remove_other k other m h in ground (arith, h, rest)

-- ===== src/Keymap/Combo.antt =====
-- crates/rkvm-proto/src/keymap.rs: the key array that `parse_combo` fills.
use rustkvm.Common.{
  ℕ, suc, ◌+◌, ◌-◌, ◌≤◌, ◌<◌, ◌≡◌, ◌≢◌, refl, List, [], ◌∷◌, ◌++◌, false, set, take, contains,
  Distinct, Distinct-snoc, take-append, set-append, bit_or, if◌then◌else◌, replicate, some, arith,
  length, length-append, Bool-cases, sym, ap, ◌∙◌, append_assoc, Option-cases, inl, inr,
}
use mathlib.Core.Path.{subst}
use rustkvm.Common.Text.{split, trim}
use rustkvm.Keymap.{Key, resolve_key}
use rustkvm.Keymap.Macro.{
  >>=-eq-ok, Combo, ok, empty_combo, add_key, add_token, add_tokens, parse_combo,
}

-- The array holds `used` and then zeros, six bytes in all.
pub record Holds (keys used : List ℕ) : Type 0 where
  pub array : keys ≡ used ++ replicate (6 - length used) 0
  pub fits : length used ≤ 6
  pub distinct : Distinct used

-- Every piece, trimmed, is a key's name.
abbrev pub Resolves : List (List ℕ) → List Key → Type 0
Resolves [] [] = Unit {0}
Resolves (t ∷ ts) (k ∷ ks) = (trim t ≢ []) × (resolve_key (trim t) ≡ some k) × Resolves ts ks
Resolves _ _ = ⊥

-- The modifiers of the keys, and their usages in the order of the names, each once.
abbrev pub modifiers : ℕ → List Key → ℕ
modifiers m [] = m
modifiers m (Key.modifier bit ∷ ks) = modifiers (bit_or m bit) ks
modifiers m (Key.usage u ∷ ks) = modifiers m ks

abbrev pub usages : List ℕ → List Key → List ℕ
usages used [] = used
usages used (Key.modifier bit ∷ ks) = usages used ks
usages used (Key.usage u ∷ ks) = usages (if contains used u then used else used ++ (u ∷ [])) ks

record Matches (c : Combo) (used : List ℕ) : Type 0 where
  holds : Holds c.keys used
  counted : c.count ≡ length used

array_room :
    (used : List ℕ)
    → length used < 6
    → replicate {A = ℕ} (6 - length used) 0 ≡ 0 ∷ replicate (6 - (length used + 1)) 0
array_room used h = let e : 6 - length used ≡ suc (6 - (length used + 1)) = omega arith in rw e

taken : (c : Combo) (used : List ℕ) → Matches c used → take c.count c.keys ≡ used
taken c used m = rw (m.counted, m.holds.array) (take-append used _)

-- The array behind a store at `count`.
stored :
    (c : Combo) (used : List ℕ) (u : ℕ)
    → Matches c used
    → length used < 6
    → set c.keys c.count u ≡ (used ++ (u ∷ [])) ++ replicate (6 - length (used ++ (u ∷ []))) 0
stored c used u m h =
    rw (m.counted, m.holds.array, array_room used h, length-append)
      (set-append used 0 _ u ∙ sym (append_assoc used (u ∷ []) _))

add_new :
    (c : Combo) (used : List ℕ) (u : ℕ)
    → Matches c used
    → contains used u ≡ false
    → length used < 6
    → Matches (record c { keys = set c.keys c.count u; count = c.count + 1 }) (used ++ (u ∷ []))
add_new c used u m new room = record {
  holds = record {
    array = stored c used u m room;
    fits = omega (arith, length-append used (u ∷ []));
    distinct = Distinct-snoc used u m.holds.distinct new;
  };
  counted = omega (arith, length-append used (u ∷ []), m.counted);
}

add_usage :
    (c c' : Combo) (used : List ℕ) (u : ℕ)
    → Matches c used
    → add_key c (Key.usage u) ≡ ok c'
    → (c'.modifier ≡ c.modifier) × Matches c' (if contains used u then used else used ++ (u ∷ []))
add_usage c c' used u m h = elim (Bool-cases (contains used u)) [
  | inl old ↦
      let e : c ≡ c' = unfold add_key in ground (arith, taken c used m) in
      rw old (subst (λ d. (d.modifier ≡ c.modifier) × Matches d used) e (refl, m))
  | inr new ↦
      let e : record c { keys = set c.keys c.count u; count = c.count + 1 } ≡ c' =
        unfold add_key in ground (arith, taken c used m) in
      rw new (
        subst (λ d. (d.modifier ≡ c.modifier) × Matches d (used ++ (u ∷ []))) e
          (refl, add_new c used u m new (unfold add_key in ground (arith, taken c used m))))
]

add_token_ok :
    (c c' : Combo) (token : List ℕ)
    → add_token c token ≡ ok c'
    → (token ≢ []) × (k : Key) × (resolve_key token ≡ some k) × (add_key c k ≡ ok c')
unfolding add_token
add_token_ok c c' [] h = cc
add_token_ok c c' (x ∷ token) h = elim (Option-cases (resolve_key (x ∷ token))) [
  | inl e ↦ ground arith
  | inr (k, e) ↦ (λ z. cc, k, e, ground arith)
]

add_key_ok :
    (c c' : Combo) (used : List ℕ) (k : Key)
    → Matches c used
    → add_key c k ≡ ok c'
    → (c'.modifier ≡ modifiers c.modifier (k ∷ [])) × Matches c' (usages used (k ∷ []))
add_key_ok c c' used (Key.modifier bit) m h =
    let e : record c { modifier = bit_or c.modifier bit } ≡ c' = unfold add_key in ground arith in
    subst (λ d. (d.modifier ≡ bit_or c.modifier bit) × Matches d used) e
      (refl, record { holds = m.holds; counted = m.counted })
add_key_ok c c' used (Key.usage u) m h = add_usage c c' used u m h

modifiers_cons :
    (k : Key) (ks : List Key) (m : ℕ) → modifiers (modifiers m (k ∷ [])) ks ≡ modifiers m (k ∷ ks)
modifiers_cons (Key.modifier bit) ks m = refl
modifiers_cons (Key.usage u) ks m = refl

usages_cons :
    (k : Key) (ks : List Key) (used : List ℕ)
    → usages (usages used (k ∷ [])) ks ≡ usages used (k ∷ ks)
usages_cons (Key.modifier bit) ks used = refl
usages_cons (Key.usage u) ks used = refl

combo_ok :
    (pieces : List (List ℕ)) (c c' : Combo) (used : List ℕ)
    → Matches c used
    → add_tokens c pieces ≡ ok c'
    → (ks : List Key) × Resolves pieces ks
      × (c'.modifier ≡ modifiers c.modifier ks)
      × Matches c' (usages used ks)
unfolding add_tokens
combo_ok [] c c' used m h =
    let e : c ≡ c' = ground arith in
    ([], tt, ap (λ (d : Combo). d.modifier) (sym e), subst (λ d. Matches d used) e m)
combo_ok (p ∷ pieces) c c' used m h =
    let (c1, e1, e2) = >>=-eq-ok (add_token c (trim p)) (λ d. add_tokens d pieces) h in
    let (nonempty, k, r, e3) = add_token_ok c c1 (trim p) e1 in
    let (em, m1) = add_key_ok c c1 used k m e3 in
    let (ks, rs, eq, mm) = combo_ok pieces c1 c' (usages used (k ∷ [])) m1 e2 in
    (
      k ∷ ks,
      (nonempty, r, rs),
      eq ∙ rw em (modifiers_cons k ks c.modifier),
      subst (Matches c') (usages_cons k ks used) mm,
    )

-- A combination that is accepted has a known key's name in every piece between the `+` signs. Its
-- modifier byte joins the modifiers named; its array holds the usages of the other keys in the order of
-- their names, each once and at most six, and then zeros.
pub parse_combo_ok :
    (combo : List ℕ) {m : ℕ} {keys : List ℕ}
    → parse_combo combo ≡ ok (m, keys)
    → (ks : List Key) × Resolves (split b'+' combo) ks
      × (m ≡ modifiers 0 ks)
      × Holds keys (usages [] ks)
unfolding parse_combo
parse_combo_ok combo {m} {keys} h =
    let (c, e1, e2) = >>=-eq-ok (add_tokens empty_combo (split b'+' combo)) _ h in
    let (ks, rs, eq, mm) = combo_ok (split b'+' combo) empty_combo c [] start e1 in
    (ks, rs, ground arith, subst (λ l. Holds l (usages [] ks)) (ground arith) mm.holds)
  where
    start : Matches empty_combo []
    start = record {
      holds = record { array = refl; fits = omega arith; distinct = tt };
      counted = refl;
    }

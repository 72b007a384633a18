-- ===== src/Common/Action.antt =====
-- Steps that return `Result<()>`: a state goes to a state and to whether the step is `Ok`.
use rustkvm.Common.{◌≡◌, refl, sym, ap, ◌∙◌, Bool, true, false, if◌then◌else◌, Bool-cases, inl, inr}

abbrev pub Action {ℓ} : Type ℓ → Type ℓ
Action S = S → S × Bool

module _ {ℓ} {S : Type ℓ} where
  -- `first?; second`.
  unfoldable pub and_then : Action S → Action S → Action S
  and_then first second s = let (s', done) = first s in if done then second s' else (s', false)

  -- `let _ = first; second`.
  unfoldable pub and_also : Action S → Action S → Action S
  and_also first second s = second (first s).0

  -- A step that cannot fail.
  abbrev pub always : (S → S) → Action S
  always f s = (f s, true)

  -- A step that fails and leaves the state as it is.
  abbrev pub refuse : Action S
  refuse s = (s, false)

  -- What holds behind a step that is `Ok`, and behind any.
  abbrev pub Ensures {κ} : (S → S → Type κ) → Action S → Type (ℓ ⊔ κ)
  Ensures R f = (s : S) → (f s).1 ≡ true → R s (f s).0

  abbrev pub Keeps {κ} : (S → S → Type κ) → Action S → Type (ℓ ⊔ κ)
  Keeps R f = (s : S) → R s (f s).0

  pub and_then-ok : (f g : Action S) (s : S) → (f s).1 ≡ true → and_then f g s ≡ g (f s).0
  unfolding and_then
  and_then-ok f g s h = rw (h, and_then) refl

  pub and_then-failed :
      (f g : Action S) (s : S) → (f s).1 ≡ false → and_then f g s ≡ ((f s).0, false)
  unfolding and_then
  and_then-failed f g s h = rw (h, and_then) refl

  pub and_then-Ensures {κ μ ν} :
      (P : S → S → Type κ) (Q : S → S → Type μ) (R : S → S → Type ν) (f g : Action S)
      → ((s t u : S) → P s t → Q t u → R s u)
      → Ensures P f
      → Ensures Q g
      → Ensures R (and_then f g)
  and_then-Ensures P Q R f g join hf hg s h = elim (Bool-cases (f s).1) [
    | inl e ↦
        let step = and_then-ok f g s e in
        rw step (join s (f s).0 (g (f s).0).0 (hf s e) (hg (f s).0 (ap (λ r. r.1) (sym step) ∙ h)))
    | inr e ↦ let step = and_then-failed f g s e in let stuck = ap (λ r. r.1) step in cc
  ]

  pub and_then-Keeps {κ} :
      (R : S → S → Type κ) (f g : Action S)
      → ((s t u : S) → R s t → R t u → R s u)
      → Keeps R f
      → Keeps R g
      → Keeps R (and_then f g)
  and_then-Keeps R f g join hf hg s = elim (Bool-cases (f s).1) [
    | inl e ↦
        let step = and_then-ok f g s e in rw step (join s (f s).0 (g (f s).0).0 (hf s) (hg (f s).0))
    | inr e ↦ let step = and_then-failed f g s e in rw step (hf s)
  ]

  pub and_also-Keeps {κ} :
      (R : S → S → Type κ) (f g : Action S)
      → ((s t u : S) → R s t → R t u → R s u)
      → Keeps R f
      → Keeps R g
      → Keeps R (and_also f g)
  unfolding and_also
  and_also-Keeps R f g join hf hg s = join s (f s).0 (g (f s).0).0 (hf s) (hg (f s).0)

-- ===== src/Config/Saved.antt =====
-- app/src/config/manager.rs: what an update leaves in memory and in the file.
use rustkvm.Common.{ℕ, ◌≡◌, inl, inr, refl, Option, none, some, Bool, true, false, Bool-cases}
use rustkvm.Config.{Config, validate}
use rustkvm.Config.Valid.{validate_idem}
use rustkvm.Config.Manager.{Manager, save, update}

-- The file, if there is one, holds a configuration that loads: it passes its validation unchanged.
abbrev pub IsLoadable : Option Config → Type 0
IsLoadable none = Unit {0}
IsLoadable (some c) = validate c ≡ (c, true)

-- An update keeps the file loadable, whatever it writes and whether or not it is saved. When it returns, the
-- file holds what is in memory, and this passed the validation; when it fails, the file is as before, and
-- what is in memory is changed all the same.
pub update_outcomes :
    (succeeds : ℕ → Bool) (updater : Config → Config) (m : Manager)
    → IsLoadable m.file
    → let (m', done) = update succeeds updater m in
      IsLoadable m'.file
      × (m'.config ≡ (validate (updater m.config)).0)
      × (done ≡ true → (m'.file ≡ some m'.config) × (validate m'.config ≡ (m'.config, true)))
      × (done ≡ false → m'.file ≡ m.file)
unfolding update save
update_outcomes succeeds updater m h = elim (Bool-cases (validate (updater m.config)).1) [
  | inr e ↦ rw (e, update, save) (h, refl, λ x. cc, λ x. refl)
  | inl e ↦
      let fixed = validate_idem (updater m.config) e in
      elim (Bool-cases (succeeds m.saves)) [
        | inr f ↦ rw (e, f, update, save) (h, refl, λ x. cc, λ x. refl)
        | inl f ↦ rw (e, f, update, save) (fixed, refl, λ x. (refl, fixed), λ x. cc)
      ]
]

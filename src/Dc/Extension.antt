-- ===== src/Dc/Extension.antt =====
-- app/src/power/dc.rs: the change of the active extension.
use rustkvm.Common.{
  ℕ, ◌≡◌, refl, ap, ◌∙◌, [], ◌∷◌, Option, none, some, Bool, true, if◌then◌else◌, arith, Bool-cases,
  inl, inr,
}
use rustkvm.Common.Action.{and_then, and_then-ok, and_then-failed}
use rustkvm.Common.Map.{text_eq_refl, text_eq→≡}
use rustkvm.Common.Text.{text_eq}
use rustkvm.Atx.{AtxState}
use rustkvm.Config.{Text, validate}
use rustkvm.Config.Manager.{Manager, save, update}
use rustkvm.Dc.{
  Power, unwrap_or_default, atx_power, dc_power, get_active_extension, unmount_extension,
  save_extension, mount_extension, set_active_extension,
}

update_active :
    (saves : ℕ → Bool) (active : Option Text) (m : Manager)
    → (update saves (λ c. record c { active_extension = active }) m).0.config.active_extension
      ≡ active
unfolding update save validate
update_active saves active m = ground arith

active_id : (id : Text) → unwrap_or_default (if text_eq id [] then none else some id) ≡ id
active_id [] = refl
active_id (c ∷ id) = refl

module _ (atx_succeeds dc_succeeds saves : ℕ → Bool) (read : Option AtxState) (exists : Bool)
    (gpio : ℕ) where
  save_extension-active :
      (id : Text) (s : Power)
      → get_active_extension (save_extension atx_succeeds dc_succeeds saves read exists gpio id s).0
        ≡ id
  unfolding get_active_extension save_extension
  save_extension-active id s =
      let active : Option Text = if text_eq id [] then none else some id in
      ap unwrap_or_default (update_active saves active s.manager) ∙ active_id id

  mount_extension-manager :
      (id : Text) (s : Power)
      → (mount_extension atx_succeeds dc_succeeds saves read exists gpio id s).0.manager ≡ s.manager
  unfolding mount_extension
  mount_extension-manager id s = elim (Bool-cases (text_eq id atx_power)) [
    | inl e ↦ rw (e, mount_extension) refl
    | inr e ↦ elim (Bool-cases (text_eq id dc_power)) [
      | inl f ↦ rw (e, f, mount_extension) refl
      | inr f ↦ rw (e, f, mount_extension) refl
    ]
  ]

  again :
      (id : Text) (s : Power)
      → get_active_extension s ≡ id
      → set_active_extension atx_succeeds dc_succeeds saves read exists gpio id s ≡ (s, true)
  unfolding set_active_extension
  again id s active =
      let same : text_eq (get_active_extension s) id ≡ true = rw active (text_eq_refl id) in
      rw same refl

  saved_active :
      (id : Text) (s : Power)
      → get_active_extension
          (and_then
            (save_extension atx_succeeds dc_succeeds saves read exists gpio id)
            (mount_extension atx_succeeds dc_succeeds saves read exists gpio id)
            s).0
        ≡ id
  unfolding get_active_extension
  saved_active id s =
      let f = save_extension atx_succeeds dc_succeeds saves read exists gpio id in
      let g = mount_extension atx_succeeds dc_succeeds saves read exists gpio id in
      let active = save_extension-active id s in
      elim (Bool-cases (f s).1) [
        | inr e ↦ ap (λ r. get_active_extension r.0) (and_then-failed f g s e) ∙ active
        | inl e ↦
            let kept = mount_extension-manager id (f s).0 in
            ap (λ r. get_active_extension r.0) (and_then-ok f g s e)
            ∙ ap (λ m. unwrap_or_default m.config.active_extension) kept
            ∙ active
      ]

  set_active_extension-active :
      (id : Text) (s : Power)
      → get_active_extension
          (set_active_extension atx_succeeds dc_succeeds saves read exists gpio id s).0
        ≡ id
  unfolding set_active_extension
  set_active_extension-active id s = elim (Bool-cases (text_eq (get_active_extension s) id)) [
    | inl e ↦ rw e (text_eq→≡ (get_active_extension s) id e)
    | inr e ↦ rw e (
        saved_active id (
          unmount_extension atx_succeeds dc_succeeds saves read exists gpio (get_active_extension s)
            s))
  ]

  -- Once an extension was asked for it counts as the active one, and asking again returns at once and does
  -- nothing: so also where the first call failed, since the configuration was not saved, the control was
  -- not mounted, or there is no such extension.
  pub set_active_extension_again :
      (id : Text) (s : Power)
      → let set = set_active_extension atx_succeeds dc_succeeds saves read exists gpio id in
        (get_active_extension (set s).0 ≡ id) × (set (set s).0 ≡ ((set s).0, true))
  unfolding set_active_extension
  set_active_extension_again id s =
      let active = set_active_extension-active id s in (active, again id _ active)

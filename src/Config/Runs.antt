-- ===== src/Config/Runs.antt =====
-- Concrete configurations.
use rustkvm.Common.{◌≡◌, refl, [], ◌∷◌, none, some, true, false}
use rustkvm.Common.Text.{codes}
use rustkvm.Config.Default.{default_config}
use rustkvm.Config.{Config, validate, is_valid_usb_id}
use rustkvm.Config.Manager.{Manager, update}
use rustkvm.Config.Saved.{IsLoadable, update_outcomes}

-- A device whose identifier is `kvm`.
abbrev default : Config
default = default_config (codes "kvm")

abbrev one_macro : Config
one_macro = record default {
  keyboard_macros =
      (record {
        id = codes "1";
        name = codes "lock";
        steps = (record { keys = codes "L" ∷ []; modifiers = codes "Meta" ∷ []; delay = 5 }) ∷ [];
        sort_order = none;
      })
      ∷ [];
}

abbrev stored : Manager
stored = record { config = default; file = some default; saves = 0 }

-- A save that fails.
update_outcomes_example :
    let (m', done) =
      update (λ n. false) (λ c. record c { local_auth_token = some (codes "t") }) stored in
    IsLoadable m'.file
    × (m'.config ≡ (validate (record default { local_auth_token = some (codes "t") })).0)
    × (done ≡ true → (m'.file ≡ some m'.config) × (validate m'.config ≡ (m'.config, true)))
    × (done ≡ false → m'.file ≡ some default)
unfolding validate is_valid_usb_id
update_outcomes_example =
    update_outcomes (λ n. false) (λ c. record c { local_auth_token = some (codes "t") }) stored refl

-- A sign counts as a digit of a USB identifier.
signed_usb_id : is_valid_usb_id (codes "0x+123") ≡ true
unfolding is_valid_usb_id
signed_usb_id = refl

-- ===== src/Config/Manager.antt =====
-- app/src/config/manager.rs: the configuration in memory and its file. Which saves succeed is a
-- parameter, and so are bcrypt and the digest of the API token.
use rustkvm.Common.{ℕ, ◌+◌, [], Option, none, some, Bool, true, false, ◌&&◌, not, if◌then◌else◌}
use rustkvm.Common.Action.{Action}
use rustkvm.Common.Text.{codes, text_eq}
use rustkvm.Config.{Text, Config, validate, is_setup_required}

-- The configuration in memory, the one in the file, and the number of saves tried.
pub record Manager : Type 0 where
  pub config : Config
  pub file : Option Config
  pub saves : ℕ

module _ (succeeds : ℕ → Bool) where
  -- `save`.
  unfoldable pub save : Action Manager
  save m =
      if succeeds m.saves
      then (record m { file = some m.config; saves = m.saves + 1 }, true)
      else (record m { saves = m.saves + 1 }, false)

  -- `update`: the configuration is changed before it is validated.
  unfoldable pub update : (Config → Config) → Action Manager
  unfolding save validate
  update updater m =
      let (config, fine) = validate (updater m.config) in
      let m' = record m { config = config } in if fine then save m' else (m', false)

  unfoldable pub set_auth_mode : Text → Action Manager
  unfolding update
  set_auth_mode mode = update (λ c. record c { local_auth_mode = mode })

  unfoldable pub set_hashed_password : Option Text → Action Manager
  unfolding update
  set_hashed_password hashed = update (λ c. record c { hashed_password = hashed })

  unfoldable pub set_auth_token : Option Text → Action Manager
  unfolding update
  set_auth_token token = update (λ c. record c { local_auth_token = token })

  -- `create_api_token` behind the draw of the token: its digest and the time.
  unfoldable pub create_api_token : Text → Text → Action Manager
  unfolding update
  create_api_token digest created_at =
      update
        (λ c. record c { api_token_sha256 = some digest; api_token_created_at = some created_at })

  unfoldable pub revoke_api_token : Action Manager
  unfolding update
  revoke_api_token = update (λ c. record c { api_token_sha256 = none; api_token_created_at = none })

unfoldable pub is_setup : Manager → Bool
unfolding is_setup_required
is_setup m = not (is_setup_required m.config)

abbrev pub no_password : Text
no_password = codes "noPassword"

unfoldable pub validate_auth_token : Text → Config → Bool
validate_auth_token token c =
    if text_eq c.local_auth_mode no_password then true else elim c.local_auth_token [
      | none ↦ false
      | some local ↦ not (text_eq token []) && text_eq token local
    ]

-- `validate_password`; `verify` is bcrypt's.
unfoldable pub validate_password : (Text → Text → Bool) → Text → Config → Bool
validate_password verify password c = elim c.hashed_password [
  | none ↦ false
  | some hashed ↦ verify password hashed
]

-- `validate_api_token`; `verify_token` compares the digest of a token with the stored one.
unfoldable pub validate_api_token : (Text → Text → Bool) → Text → Config → Bool
validate_api_token verify_token token c = elim c.api_token_sha256 [
  | none ↦ false
  | some stored ↦ verify_token token stored
]

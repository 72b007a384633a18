-- ===== src/Auth/Setup.antt =====
-- app/src/web/device.rs: the setup of a device.
use rustkvm.Common.{
  ℕ, ◌≡◌, refl, ◌⊎◌, inl, inr, [], Option, none, some, Bool, true, false, arith, Bool-cases,
}
use rustkvm.Config.{Text, Config, validate}
use rustkvm.Config.Manager.{Manager, save, update, set_auth_mode}
use rustkvm.Auth.{
  Reply, refused, SetupRequest, attempt_or, is_some, is_mode, password_mode, setup_password,
  handle_device_setup,
}

-- Passwords are asked for, and there is none, nor a session nor a token of the API.
abbrev pub IsLockedOut : Config → Type 0
IsLockedOut c =
    (c.local_auth_mode ≡ password_mode)
    × (c.hashed_password ≡ none)
    × (c.local_auth_token ≡ none)
    × (c.api_token_sha256 ≡ none)

-- A device that is not set up.
abbrev pub IsFresh : Config → Type 0
IsFresh c =
    (c.local_auth_mode ≡ [])
    × (c.hashed_password ≡ none)
    × (c.local_auth_token ≡ none)
    × (c.api_token_sha256 ≡ none)

set_auth_mode-IsLockedOut :
    (succeeds : ℕ → Bool) (m : Manager)
    → IsFresh m.config
    → IsLockedOut (set_auth_mode succeeds password_mode m).0.config
unfolding set_auth_mode update save validate
set_auth_mode-IsLockedOut succeeds m h = ground arith

-- An answer that is a client's or a server's error.
abbrev pub IsRefused : Reply → Type 0
IsRefused reply = (status : ℕ) × (reply ≡ refused status)

attempt_or-IsRefused :
    (P : Manager → Type 0) (f : Manager → Manager × Bool) (rest : Manager → Manager × Reply)
    (m : Manager)
    → P (f m).0
    → ((m' : Manager) → rest m' ≡ (m', refused 400))
    → IsRefused (attempt_or 500 f rest m).1 × P (attempt_or 500 f rest m).0
unfolding attempt_or
attempt_or-IsRefused P f rest m p refuses = elim (Bool-cases (f m).1) [
  | inl e ↦ rw (e, attempt_or, refuses (f m).0) ((400, refl), p)
  | inr e ↦ rw (e, attempt_or) ((500, refl), p)
]

setup_password_missing :
    (succeeds : ℕ → Bool) (verify : Text → Text → Bool) (password hashed : Option Text)
    (token : Text)
    → (password ≡ none) ⊎ (password ≡ some [])
    → (m : Manager) → setup_password succeeds verify password hashed token m ≡ (m, refused 400)
unfolding setup_password
setup_password_missing succeeds verify password hashed token (inl w) m = rw w refl
setup_password_missing succeeds verify password hashed token (inr w) m = rw w refl

setup_starts :
    (succeeds : ℕ → Bool) (verify : Text → Text → Bool) (password hashed : Option Text)
    (token : Text) (m : Manager)
    → IsFresh m.config
    → let setup : SetupRequest = record { local_auth_mode = password_mode; password = password } in
      handle_device_setup succeeds verify (some setup) hashed token m
      ≡ attempt_or 500
          (set_auth_mode succeeds password_mode)
          (setup_password succeeds verify password hashed token)
          m
unfolding handle_device_setup
setup_starts succeeds verify password hashed token m fresh =
    let unset : is_mode [] m.config ≡ true = rw fresh.0 refl in
    let nothing : is_some m.config.hashed_password ≡ false = rw fresh.1 refl in
    rw (unset, nothing) refl

-- A setup of a device that is not set up, which asks for passwords and sends none or an empty one, is
-- refused. The device is then in the password mode without a password.
pub setup_locks_out :
    (succeeds : ℕ → Bool) (verify : Text → Text → Bool) (password hashed : Option Text)
    (token : Text) (m : Manager)
    → IsFresh m.config
    → (password ≡ none) ⊎ (password ≡ some [])
    → let setup : SetupRequest = record { local_auth_mode = password_mode; password = password } in
      let (m', reply) = handle_device_setup succeeds verify (some setup) hashed token m in
      IsRefused reply × IsLockedOut m'.config
unfolding handle_device_setup setup_password attempt_or
setup_locks_out succeeds verify password hashed token m fresh without =
    let start = setup_starts succeeds verify password hashed token m fresh in
    rw start (
      attempt_or-IsRefused (λ m'. IsLockedOut m'.config) (set_auth_mode succeeds password_mode)
        (setup_password succeeds verify password hashed token) m
        (set_auth_mode-IsLockedOut succeeds m fresh)
        (setup_password_missing succeeds verify password hashed token without))

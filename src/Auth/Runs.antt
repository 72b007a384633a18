-- ===== src/Auth/Runs.antt =====
-- Concrete logins, setups and changes of a password.
use rustkvm.Common.{
  ℕ, ◌+◌, ◌≡◌, ◌≤◌, refl, inl, List, [], ◌∷◌, none, some, Bool, true, false, arith,
}
use rustkvm.Common.Predicates.{All}
use rustkvm.Common.Text.{codes, text_eq}
use rustkvm.Config.Default.{default_config}
use rustkvm.Config.{Text, Config, validate, is_valid_usb_id}
use rustkvm.Config.Manager.{Manager, validate_password}
use rustkvm.Auth.{
  Site, done, refused, SetupRequest, ChangePasswordRequest, password_mode, handle_login_local,
  handle_logout, handle_device_setup, auth_middleware,
}
use rustkvm.Auth.Guessing.{log_in_all, five_guesses_lock}
use rustkvm.Auth.Locked.{Request, login, setup, protected, serve_all, locked_out_stays}
use rustkvm.Auth.Login.{handle_login_local-session}
use rustkvm.Auth.Setup.{IsRefused, IsLockedOut, setup_locks_out}
use rustkvm.RateLimit.{v4, new}

-- A hash that is the password itself, and a digest that is the token itself.
abbrev plain : Text → Text → Bool
plain = text_eq

abbrev always_succeeds : ℕ → Bool
always_succeeds n = true

abbrev default : Config
default = default_config (codes "kvm")

abbrev guarded : Config
guarded = record default {
  hashed_password = some (codes "right");
  local_auth_token = some (codes "old");
  local_auth_mode = password_mode;
}

abbrev guarded_manager : Manager
guarded_manager = record { config = guarded; file = none; saves = 0 }

abbrev site : Site
site = record { manager = guarded_manager; limiter = new }

-- Bodies and times of five wrong guesses, and two logins after them, the second with the right password.
five_guesses_lock_example :
    let try = log_in_all always_succeeds plain (v4 7) (codes "t") in
    let (s', replies) =
      try
        ((1000, 1100, some (codes "a"))
          ∷ (2000, 2100, some (codes "b"))
          ∷ (3000, 3100, some (codes "c"))
          ∷ (4000, 4100, some (codes "d"))
          ∷ (5000, 5100, some (codes "e"))
          ∷ [])
        site in
    let (s'', more) = try ((6000, 6100, none) ∷ (800000, 800100, some (codes "right")) ∷ []) s' in
    All (λ r. r ≡ refused 401) replies
    × All (λ r. r ≡ refused 429) more
    × (s''.manager ≡ guarded_manager)
unfolding new validate_password
five_guesses_lock_example =
    let soon : (t u : ℕ) → t ≤ 901100 → u ≤ 901100 → (t ≤ 1100 + 900000) × (u ≤ 1100 + 900000) =
      (λ t u h k. (omega arith, omega arith)) in
    five_guesses_lock always_succeeds plain (v4 7) (codes "t") site 1000 1100 5000 5100 (codes "a")
      (codes "e") (2000, 2100, codes "b") (3000, 3100, codes "c") (4000, 4100, codes "d")
      ((6000, 6100, none) ∷ (800000, 800100, some (codes "right")) ∷ []) refl refl
      (refl, (refl, (refl, (refl, (refl, tt)))))
      (
        soon 2000 2100 (omega arith) (omega arith),
        (
          soon 3000 3100 (omega arith) (omega arith),
          (
            soon 4000 4100 (omega arith) (omega arith),
            (soon 5000 5100 (omega arith) (omega arith), tt),
          ),
        ),
      )
      (omega arith, (omega arith, tt))

handle_login_local-session_example :
    (validate_password plain (codes "right") guarded ≡ true)
    × (codes "t" ≡ codes "t")
    × ((handle_login_local always_succeeds plain 5 6 none
          (some (codes "right"))
          (codes "t")
          site).0.manager.config.local_auth_token
        ≡ some (codes "t"))
    × (auth_middleware plain
          (some (codes "t"))
          none
          (handle_login_local always_succeeds plain 5 6 none
            (some (codes "right"))
            (codes "t")
            site).0.manager.config
        ≡ true)
unfolding handle_login_local validate is_valid_usb_id
handle_login_local-session_example =
    handle_login_local-session always_succeeds plain plain 5 6 none (codes "right") (codes "t")
      (codes "t") site refl refl

abbrev fresh : Manager
fresh = record { config = default; file = none; saves = 0 }

setup_locks_out_example :
    let asked : SetupRequest = record { local_auth_mode = password_mode; password = none } in
    let (m', reply) =
      handle_device_setup always_succeeds plain (some asked) none (codes "t") fresh in
    IsRefused reply × IsLockedOut m'.config
setup_locks_out_example =
    setup_locks_out always_succeeds plain none none (codes "t") fresh (refl, refl, refl, refl)
      (inl refl)

abbrev locked : Site
locked = record site {
  manager = record fresh { config = record default { local_auth_mode = password_mode } };
}

abbrev attempts : List Request
attempts =
    login 5 6 none (some (codes "right")) (codes "t")
    ∷ setup (some (record { local_auth_mode = password_mode; password = some (codes "p") }))
        (some (codes "p")) (codes "t")
    ∷ protected (some []) (some (codes "Bearer x")) (λ s. (s, done none))
    ∷ []

locked_out_stays_example :
    let (s', replies) = serve_all always_succeeds plain plain attempts locked in
    All IsRefused replies × (s'.manager ≡ locked.manager)
locked_out_stays_example =
    locked_out_stays always_succeeds plain plain attempts locked (refl, refl, refl, refl)

abbrev change : ChangePasswordRequest
change = record { old_password = codes "right"; new_password = codes "left" }

-- A logout that is not saved has ended the session all the same.
unsaved_logout : (handle_logout (λ n. false) plain guarded_manager).0.config.local_auth_token ≡ none
unfolding handle_logout
unsaved_logout = refl

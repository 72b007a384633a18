-- ===== src/Auth.antt =====
-- app/src/web/auth.rs, app/src/web/device.rs and app/src/middleware.rs: who may log in, and what the
-- handlers of passwords and sessions do to the configuration. bcrypt, the digest of the API token, the
-- drawn tokens and the bodies of the requests are arguments; a body that does not parse is `none`.
pub mod Access
pub mod Guessing
pub mod Locked
pub mod Login
pub mod Setup
mod Runs
use rustkvm.Common.{
  ℕ, List, [], ◌∷◌, Option, none, some, Bool, true, false, ◌&&◌, ◌||◌, not, if◌then◌else◌, ◌==◌,
  leb,
}
use rustkvm.Common.Action.{Action}
use rustkvm.Common.Text.{codes, text_eq, to_ascii_lowercase, trim}
use rustkvm.Config.{Text, Config}
use rustkvm.Config.Manager.{
  Manager, set_auth_mode, set_hashed_password, set_auth_token, validate_auth_token,
  validate_password, validate_api_token, no_password,
}
use rustkvm.RateLimit.{State, IpAddr, is_allowed, record_failure, record_success}

-- The cookie that an answer sets: a token for seven days, or one that has expired.
pub data Cookie : Type 0 where
  session : Text → Cookie
  expired : Cookie

pub data Reply : Type 0 where
  done : Option Cookie → Reply
  refused : ℕ → Reply

abbrev pub Handler {ℓ} : Type ℓ → Type ℓ
Handler S = S → S × Reply

module _ {ℓ} {S : Type ℓ} where
  abbrev pub answer : Reply → Handler S
  answer reply s = (s, reply)

  -- `action.map_err(|_| status)?; rest`.
  unfoldable pub attempt_or : ℕ → Action S → Handler S → Handler S
  attempt_or status action rest s =
      let (s', fine) = action s in if fine then rest s' else (s', refused status)

abbrev pub is_some : Option Text → Bool
is_some none = false
is_some (some _) = true

abbrev pub is_mode : Text → Config → Bool
is_mode mode c = text_eq c.local_auth_mode mode

abbrev pub password_mode : Text
password_mode = codes "password"

pub record ChangePasswordRequest : Type 0 where
  pub old_password : Text
  pub new_password : Text

pub record SetupRequest : Type 0 where
  pub local_auth_mode : Text
  pub password : Option Text

-- The configuration and the rate limiter of password attempts.
pub record Site : Type 0 where
  pub manager : Manager
  pub limiter : State

abbrev pub same_token : Option Text → Text → Bool
same_token none token = false
same_token (some t) token = text_eq t token

module _ (succeeds : ℕ → Bool) (verify : Text → Text → Bool) where
  -- `handle_login_local` past the limiter and the parse: the failure or the success is recorded, and
  -- a session begins.
  unfoldable pub check_login : ℕ → Option IpAddr → Text → Text → Handler Site
  unfolding set_auth_token validate_password record_failure record_success
  check_login now ip password token s =
      let failed : State = elim ip [ none ↦ s.limiter | some a ↦ record_failure now a s.limiter ] in
      let passed : State = elim ip [ none ↦ s.limiter | some a ↦ record_success a s.limiter ] in
      let (m, fine) = set_auth_token succeeds (some token) s.manager in
      if not (validate_password verify password s.manager.config)
      then (record s { limiter = failed }, refused 401)
      else if not fine
      then (record { manager = m; limiter = passed }, refused 500)
      else if not (same_token m.config.local_auth_token token)
      then (record { manager = m; limiter = passed }, refused 500)
      else (record { manager = m; limiter = passed }, done (some (session token)))

  -- `handle_login_local`, with the time of the check, the time of the record, the address, the password
  -- of the body and the token that is drawn.
  unfoldable pub handle_login_local : ℕ → ℕ → Option IpAddr → Option Text → Text → Handler Site
  unfolding check_login is_allowed
  handle_login_local now later ip body token s =
      if is_mode no_password s.manager.config then (s, refused 400) else elim ip [
        | none ↦ elim body [
          | none ↦ (s, refused 400)
          | some password ↦ check_login later none password token s
        ]
        | some a ↦
            let (limiter, retry) = is_allowed now a s.limiter in
            let s' = record s { limiter = limiter } in
            elim retry [
              | some _ ↦ (s', refused 429)
              | none ↦ elim body [
                | none ↦ (s', refused 400)
                | some password ↦ check_login later (some a) password token s'
              ]
            ]
      ]

  unfoldable pub handle_logout : Handler Manager
  unfolding attempt_or set_auth_token
  handle_logout = attempt_or 500 (set_auth_token succeeds none) (answer (done (some expired)))

  -- `create_password_local`; `hashed` is the hash that bcrypt gives, if it does.
  unfoldable pub create_password_local : Option Text → Option Text → Text → Handler Manager
  unfolding attempt_or set_hashed_password set_auth_token set_auth_mode
  create_password_local body hashed token m =
      if is_some m.config.hashed_password
      then (m, refused 400)
      else if not (is_mode no_password m.config)
      then (m, refused 400)
      else elim body [
        | none ↦ (m, refused 400)
        | some password ↦ if text_eq password [] then (m, refused 400) else elim hashed [
          | none ↦ (m, refused 500)
          | some h ↦
              attempt_or 500 (set_hashed_password succeeds (some h))
                (attempt_or 500 (set_auth_token succeeds (some token)) (
                  attempt_or 500 (set_auth_mode succeeds password_mode)
                    (answer (done (some (session token))))))
                m
        ]
      ]

  unfoldable pub modify_password_local :
      Option ChangePasswordRequest → Option Text → Text → Handler Manager
  unfolding attempt_or set_hashed_password set_auth_token validate_password
  modify_password_local body hashed token m =
      if not (is_some m.config.hashed_password)
      then (m, refused 400)
      else if not (is_mode password_mode m.config)
      then (m, refused 400)
      else elim body [
        | none ↦ (m, refused 400)
        | some change ↦
            if text_eq change.old_password [] || text_eq change.new_password []
            then (m, refused 400)
            else if not (validate_password verify change.old_password m.config)
            then (m, refused 401)
            else elim hashed [
              | none ↦ (m, refused 500)
              | some h ↦
                  attempt_or 500 (set_hashed_password succeeds (some h))
                    (attempt_or 500 (set_auth_token succeeds (some token))
                      (answer (done (some (session token)))))
                    m
            ]
      ]

  unfoldable pub disable_local_password : Option Text → Handler Manager
  unfolding attempt_or set_hashed_password set_auth_token set_auth_mode validate_password
  disable_local_password body m =
      if not (is_some m.config.hashed_password)
      then (m, refused 400)
      else if not (is_mode password_mode m.config)
      then (m, refused 400)
      else elim body [
        | none ↦ (m, refused 400)
        | some password ↦
            if text_eq password []
            then (m, refused 400)
            else if not (validate_password verify password m.config)
            then (m, refused 401)
            else attempt_or 500 (set_hashed_password succeeds none)
                (attempt_or 500 (set_auth_token succeeds none) (
                  attempt_or 500 (set_auth_mode succeeds no_password)
                    (answer (done (some expired)))))
                m
      ]

  -- The password of a setup is checked behind the save of the mode.
  unfoldable pub setup_password : Option Text → Option Text → Text → Handler Manager
  unfolding attempt_or set_hashed_password set_auth_token
  setup_password password hashed token m = elim password [
    | none ↦ (m, refused 400)
    | some p ↦ if text_eq p [] then (m, refused 400) else elim hashed [
      | none ↦ (m, refused 500)
      | some h ↦
          attempt_or 500 (set_hashed_password succeeds (some h))
            (attempt_or 500 (set_auth_token succeeds (some token))
              (answer (done (some (session token)))))
            m
    ]
  ]

  unfoldable pub handle_device_setup : Option SetupRequest → Option Text → Text → Handler Manager
  unfolding attempt_or set_auth_mode setup_password set_hashed_password set_auth_token
  handle_device_setup body hashed token m =
      if not (is_mode [] m.config) || is_some m.config.hashed_password
      then (m, refused 400)
      else elim body [
        | none ↦ (m, refused 400)
        | some setup ↦
            if not (text_eq setup.local_auth_mode password_mode)
              && not (text_eq setup.local_auth_mode no_password)
            then (m, refused 400)
            else attempt_or 500 (set_auth_mode succeeds setup.local_auth_mode)
                (if text_eq setup.local_auth_mode password_mode
                  then setup_password setup.password hashed token
                  else attempt_or 500 (set_hashed_password succeeds none)
                      (attempt_or 500 (set_auth_token succeeds none) (answer (done none))))
                m
      ]

-- `split_once(' ')`.
unfoldable pub split_space : Text → Option (Text × Text)
split_space [] = none
split_space (c ∷ s) =
    let rest = split_space s in
    if c == b' '
    then some ([], s)
    else elim rest [ none ↦ none | some (front, back) ↦ some (c ∷ front, back) ]

-- `api_token::bearer_token`.
unfoldable pub bearer_token : Text → Option Text
unfolding split_space
bearer_token authorization = elim (split_space authorization) [
  | none ↦ none
  | some (scheme, rest) ↦
      let token = trim rest in
      if text_eq (to_ascii_lowercase scheme) (codes "bearer") && not (text_eq token [])
      then some token
      else none
]

-- `auth_middleware`, with the values of the cookie and of the header: whether the request goes on.
unfoldable pub auth_middleware : (Text → Text → Bool) → Option Text → Option Text → Config → Bool
unfolding validate_auth_token validate_api_token bearer_token
auth_middleware verify_token cookie authorization c =
    let by_cookie : Bool = elim cookie [
      | none ↦ false
      | some token ↦ validate_auth_token token c
    ] in
    let by_header : Bool = elim authorization [
      | none ↦ false
      | some text ↦ elim (bearer_token text) [
        | none ↦ false
        | some token ↦ validate_api_token verify_token token c
      ]
    ] in
    if is_mode no_password c then true else if by_cookie then true else by_header

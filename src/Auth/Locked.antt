-- ===== src/Auth/Locked.antt =====
-- app/src/web/device.rs, app/src/web/auth.rs and app/src/middleware.rs: a device in the password mode
-- without a password.
use rustkvm.Common.{
  ℕ, ◌≡◌, refl, ap, ◌∙◌, inl, inr, List, [], ◌∷◌, Option, none, some, Bool, false, if◌then◌else◌,
  Option-cases,
}
use rustkvm.Common.Predicates.{All}
use rustkvm.Config.{Text, Config}
use rustkvm.Config.Manager.{
  Manager, validate_auth_token, validate_password, validate_api_token, no_password,
}
use rustkvm.Auth.{
  Site, Reply, refused, SetupRequest, is_mode, check_login, handle_login_local, handle_device_setup,
  auth_middleware, bearer_token,
}
use rustkvm.RateLimit.{IpAddr, is_allowed}
use rustkvm.Auth.Setup.{IsLockedOut, IsRefused}

-- A request of the web: the two public handlers that could let someone in, and any protected handler,
-- with the cookie and the header that its request sends.
pub data Request : Type 0 where
  login : ℕ → ℕ → Option IpAddr → Option Text → Text → Request
  setup : Option SetupRequest → Option Text → Text → Request
  protected : Option Text → Option Text → (Site → Site × Reply) → Request

module _ (succeeds : ℕ → Bool) (verify verify_token : Text → Text → Bool) where
  abbrev pub on_manager : (Manager → Manager × Reply) → Site → Site × Reply
  on_manager f s = let (m, reply) = f s.manager in (record s { manager = m }, reply)

  unfoldable pub serve : Request → Site → Site × Reply
  serve (login now later ip body token) s =
      handle_login_local succeeds verify now later ip body token s
  serve (setup body hashed token) s =
      on_manager (handle_device_setup succeeds verify body hashed token) s
  serve (protected cookie authorization handler) s =
      if auth_middleware verify_token cookie authorization s.manager.config
      then handler s
      else (s, refused 401)

  -- The replies to some requests, and the site behind them.
  abbrev pub serve_all : List Request → Site → Site × List Reply
  serve_all [] s = (s, [])
  serve_all (r ∷ rs) s =
      let (s', reply) = serve r s in let (s'', replies) = serve_all rs s' in (s'', reply ∷ replies)

  locked_middleware :
      (cookie authorization : Option Text) (c : Config)
      → IsLockedOut c
      → auth_middleware verify_token cookie authorization c ≡ false
  unfolding auth_middleware validate_auth_token validate_api_token
  locked_middleware none none c h = rw h.0 refl
  locked_middleware (some token) none c h = rw (h.0, h.2) refl
  locked_middleware none (some text) c h = elim (Option-cases (bearer_token text)) [
    | inl e ↦ rw (h.0, e) refl
    | inr (token, e) ↦ rw (h.0, e, h.3) refl
  ]
  locked_middleware (some cookie) (some text) c h = elim (Option-cases (bearer_token text)) [
    | inl e ↦ rw (h.0, h.2, e) refl
    | inr (token, e) ↦ rw (h.0, h.2, e, h.3) refl
  ]

  locked_check :
      (later : ℕ) (ip : Option IpAddr) (password token : Text) (s : Site)
      → IsLockedOut s.manager.config
      → let (s', reply) = check_login succeeds verify later ip password token s in
        IsRefused reply × (s'.manager ≡ s.manager)
  unfolding check_login validate_password
  locked_check later ip password token s h = rw (h.1) ((401, refl), refl)

  -- A login of which the limiter is not asked, or that it lets through.
  login_unlimited :
      (now later : ℕ) (password token : Text) (s : Site)
      → is_mode no_password s.manager.config ≡ false
      → handle_login_local succeeds verify now later none (some password) token s
        ≡ check_login succeeds verify later none password token s
  unfolding handle_login_local
  login_unlimited now later password token s mode = rw mode refl

  login_allowed :
      (now later : ℕ) (a : IpAddr) (password token : Text) (s : Site)
      → is_mode no_password s.manager.config ≡ false
      → (is_allowed now a s.limiter).1 ≡ none
      → handle_login_local succeeds verify now later (some a) (some password) token s
        ≡ check_login succeeds verify later
            (some a)
            password
            token
            (record s { limiter = (is_allowed now a s.limiter).0 })
  unfolding handle_login_local
  login_allowed now later a password token s mode allowed =
      let asked = record s { limiter = (is_allowed now a s.limiter).0 } in
      let next : Option ℕ → Site × Reply = (λ o. elim o [
        | some _ ↦ (asked, refused 429)
        | none ↦ check_login succeeds verify later (some a) password token asked
      ]) in
      ap (λ b. if b then (s, refused 400) else next (is_allowed now a s.limiter).1) mode
      ∙ ap next allowed

  login_without_body :
      (now later : ℕ) (ip : Option IpAddr) (token : Text) (s : Site)
      → is_mode no_password s.manager.config ≡ false
      → let (s', reply) = handle_login_local succeeds verify now later ip none token s in
        IsRefused reply × (s'.manager ≡ s.manager)
  unfolding handle_login_local
  login_without_body now later none token s mode = rw mode ((400, refl), refl)
  login_without_body now later (some a) token s mode =
      elim (Option-cases (is_allowed now a s.limiter).1) [
        | inr (wait, e) ↦ rw (mode, e) ((429, refl), refl)
        | inl e ↦ rw (mode, e) ((400, refl), refl)
      ]

  login_limited :
      (now later wait : ℕ) (a : IpAddr) (body : Option Text) (token : Text) (s : Site)
      → is_mode no_password s.manager.config ≡ false
      → (is_allowed now a s.limiter).1 ≡ some wait
      → let (s', reply) = handle_login_local succeeds verify now later (some a) body token s in
        IsRefused reply × (s'.manager ≡ s.manager)
  unfolding handle_login_local
  login_limited now later wait a body token s mode locked = rw (mode, locked) ((429, refl), refl)

  locked_login :
      (now later : ℕ) (ip : Option IpAddr) (body : Option Text) (token : Text) (s : Site)
      → IsLockedOut s.manager.config
      → is_mode no_password s.manager.config ≡ false
      → let (s', reply) = handle_login_local succeeds verify now later ip body token s in
        IsRefused reply × (s'.manager ≡ s.manager)
  locked_login now later ip none token s h mode = login_without_body now later ip token s mode
  locked_login now later none (some password) token s h mode =
      let step = login_unlimited now later password token s mode in
      rw step (locked_check later none password token s h)
  locked_login now later (some a) (some password) token s h mode =
      elim (Option-cases (is_allowed now a s.limiter).1) [
        | inr (wait, e) ↦ login_limited now later wait a (some password) token s mode e
        | inl e ↦
            let step = login_allowed now later a password token s mode e in
            let asked = record s { limiter = (is_allowed now a s.limiter).0 } in
            rw step (locked_check later (some a) password token asked h)
      ]

  locked_setup :
      (body : Option SetupRequest) (hashed : Option Text) (token : Text) (m : Manager)
      → IsLockedOut m.config
      → handle_device_setup succeeds verify body hashed token m ≡ (m, refused 400)
  unfolding handle_device_setup
  locked_setup body hashed token m h = rw h.0 refl

  locked_serve :
      (r : Request) (s : Site)
      → IsLockedOut s.manager.config
      → let (s', reply) = serve r s in IsRefused reply × (s'.manager ≡ s.manager)
  unfolding serve
  locked_serve (login now later ip body token) s h =
      locked_login now later ip body token s h (rw h.0 refl)
  locked_serve (setup body hashed token) s h =
      let same = locked_setup body hashed token s.manager h in rw same ((400, refl), refl)
  locked_serve (protected cookie authorization handler) s h =
      let shut = locked_middleware cookie authorization s.manager.config h in
      rw shut ((401, refl), refl)

  -- A device that is locked out stays so: whatever is asked of the login, of the setup and of the protected
  -- handlers, and whatever these would do, each of these requests is refused and the configuration does not
  -- change. (Public pages that answer without a session are not spoken of.)
  pub locked_out_stays :
      (rs : List Request) (s : Site)
      → IsLockedOut s.manager.config
      → let (s', replies) = serve_all rs s in All IsRefused replies × (s'.manager ≡ s.manager)
  locked_out_stays [] s h = (tt, refl)
  locked_out_stays (r ∷ rs) s h =
      let (first, same) = locked_serve r s h in
      let still : IsLockedOut (serve r s).0.manager.config = rw same h in
      let (rest, same_too) = locked_out_stays rs (serve r s).0 still in
      ((first, rest), same_too ∙ same)

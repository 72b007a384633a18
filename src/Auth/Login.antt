-- ===== src/Auth/Login.antt =====
-- app/src/web/auth.rs: the login, and the rate limiter of app/src/web/ratelimit.rs within it.
use rustkvm.Common.{ℕ, ◌≡◌, Option, none, some, Bool, true, false, arith, []}
use rustkvm.Common.Text.{text_eq}
use rustkvm.Common.Map.{text_eq_refl}
use rustkvm.Config.{Text, Config, validate}
use rustkvm.Config.Manager.{
  Manager, save, set_auth_token, validate_password, validate_auth_token, no_password,
}
use rustkvm.Auth.{Site, session, done, check_login, handle_login_local, auth_middleware}
use rustkvm.RateLimit.{IpAddr, is_allowed}

set_auth_token-config :
    (succeeds : ℕ → Bool) (token : Option Text) (m : Manager)
    → (set_auth_token succeeds token m).0.config.local_auth_token ≡ token
unfolding set_auth_token rustkvm.Config.Manager.update save validate
set_auth_token-config succeeds token m = ground arith

-- What a session that begins shows: the password was right, and the token is the drawn one, which the
-- configuration has.
abbrev IsSession : (Text → Text → Bool) → Text → Text → Text → Config → Config → Type 0
IsSession verify password token sent before after =
    (validate_password verify password before ≡ true)
    × (sent ≡ token)
    × (after.local_auth_token ≡ some token)

check_login-IsSession :
    (succeeds : ℕ → Bool) (verify : Text → Text → Bool) (later : ℕ) (ip : Option IpAddr)
    (password token sent : Text) (s : Site)
    → (check_login succeeds verify later ip password token s).1 ≡ done (some (session sent))
    → IsSession verify password token sent s.manager.config
        (check_login succeeds verify later ip password token s).0.manager.config
unfolding check_login
check_login-IsSession succeeds verify later ip password token sent s h =
    let kept = set_auth_token-config succeeds (some token) s.manager in ground (arith, kept)

handle_login_local-IsSession :
    (succeeds : ℕ → Bool) (verify : Text → Text → Bool) (now later : ℕ) (ip : Option IpAddr)
    (password token sent : Text) (s : Site)
    → let (s', reply) = handle_login_local succeeds verify now later ip (some password) token s in
      reply ≡ done (some (session sent))
      → IsSession verify password token sent s.manager.config s'.manager.config
unfolding handle_login_local
handle_login_local-IsSession succeeds verify now later none password token sent s h =
    let checked = check_login-IsSession succeeds verify later none password token sent s in
    ground (arith, checked)
handle_login_local-IsSession succeeds verify now later (some a) password token sent s h =
    let asked = record s { limiter = (is_allowed now a s.limiter).0 } in
    let checked = check_login-IsSession succeeds verify later (some a) password token sent asked in
    ground (arith, checked)

opens :
    (verify_token : Text → Text → Bool) (token : Text) (c : Config)
    → c.local_auth_token ≡ some token
    → text_eq token [] ≡ false
    → auth_middleware verify_token (some token) none c ≡ true
unfolding auth_middleware validate_auth_token
opens verify_token token c h full = let same = text_eq_refl token in ground (arith, same)

-- A login that begins a session had the right password. The session's token is the drawn one, which the
-- configuration has from then on; when it is not empty, it opens the protected pages.
pub handle_login_local-session :
    (succeeds : ℕ → Bool) (verify verify_token : Text → Text → Bool) (now later : ℕ)
    (ip : Option IpAddr) (password token sent : Text) (s : Site)
    → text_eq token [] ≡ false
    → let (s', reply) = handle_login_local succeeds verify now later ip (some password) token s in
      reply ≡ done (some (session sent))
      → (validate_password verify password s.manager.config ≡ true)
        × (sent ≡ token)
        × (s'.manager.config.local_auth_token ≡ some token)
        × (auth_middleware verify_token (some sent) none s'.manager.config ≡ true)
handle_login_local-session succeeds verify verify_token now later ip password token sent s full h =
    let (right, drawn, kept) =
      handle_login_local-IsSession succeeds verify now later ip password token sent s h in
    let s' = (handle_login_local succeeds verify now later ip (some password) token s).0 in
    let opened = opens verify_token token s'.manager.config kept full in
    (right, drawn, kept, rw drawn opened)

-- ===== src/Auth/Access.antt =====
-- app/src/web/auth.rs and app/src/middleware.rs: who has access behind a handler that returns.
use mathlib.Core.Path.{subst}
use rustkvm.Common.Map.{text_eq→≡}
use rustkvm.Common.{
  ℕ, ◌≡◌, refl, sym, ap, ◌∙◌, Option, none, some, Bool, true, false, ◌||◌, not, if◌then◌else◌,
  arith, [], Bool-cases, Option-cases, inl, inr,
}
use rustkvm.Common.Action.{Action}
use rustkvm.Common.Text.{text_eq}
use rustkvm.Config.{Text, Config, validate}
use rustkvm.Config.Manager.{
  Manager, save, update, set_auth_mode, set_hashed_password, set_auth_token, validate_auth_token,
  validate_password, no_password,
}
use rustkvm.Auth.{
  Handler, Reply, Cookie, session, expired, done, refused, ChangePasswordRequest, attempt_or,
  answer, is_some, is_mode, password_mode, handle_logout, modify_password_local, auth_middleware,
}

-- A handler behind a step that may fail returns only when the step succeeds.
attempt_or-done :
    (status : ℕ) (f : Action Manager) (rest : Handler Manager) (m : Manager)
    (cookie : Option Cookie)
    → (attempt_or status f rest m).1 ≡ done cookie
    → ((f m).1 ≡ true) × (attempt_or status f rest m ≡ rest (f m).0)
unfolding attempt_or
attempt_or-done status f rest m cookie h = elim (Bool-cases (f m).1) [
  | inl e ↦ (e, rw (e, attempt_or) refl)
  | inr e ↦
      let stuck : attempt_or status f rest m ≡ ((f m).0, refused status) =
        rw (e, attempt_or) refl in
      let reply = ap (λ r. r.1) stuck in cc
]

-- The fields of the password, the session and the mode.
abbrev HasAccess : Option Text → Option Text → Text → Config → Type 0
HasAccess hashed token mode c =
    (c.hashed_password ≡ hashed) × (c.local_auth_token ≡ token) × (c.local_auth_mode ≡ mode)

module _ (succeeds : ℕ → Bool) where
  set_hashed_password-HasAccess :
      (hashed : Option Text) (m : Manager)
      → HasAccess hashed m.config.local_auth_token m.config.local_auth_mode
          (set_hashed_password succeeds hashed m).0.config
  unfolding set_hashed_password update save validate
  set_hashed_password-HasAccess hashed m = ground arith

  set_auth_token-HasAccess :
      (token : Option Text) (m : Manager)
      → HasAccess m.config.hashed_password token m.config.local_auth_mode
          (set_auth_token succeeds token m).0.config
  unfolding set_auth_token update save validate
  set_auth_token-HasAccess token m = ground arith

  set_auth_mode-HasAccess :
      (mode : Text) (m : Manager)
      → HasAccess m.config.hashed_password m.config.local_auth_token mode
          (set_auth_mode succeeds mode m).0.config
  unfolding set_auth_mode update save validate
  set_auth_mode-HasAccess mode m = ground arith

  -- The steps of a change of the password: the hash, the session, and the answer.
  abbrev change_password : Option Text → Option Text → Reply → Handler Manager
  change_password hashed token reply =
      attempt_or 500 (set_hashed_password succeeds hashed)
        (attempt_or 500 (set_auth_token succeeds token) (answer reply))

  change_password-HasAccess :
      (hashed token : Option Text) (reply : Reply) (cookie : Option Cookie) (m : Manager)
      → (change_password hashed token reply m).1 ≡ done cookie
      → (reply ≡ done cookie)
        × HasAccess hashed token m.config.local_auth_mode
            (change_password hashed token reply m).0.config
  change_password-HasAccess hashed token reply cookie m h =
      let after = attempt_or 500 (set_auth_token succeeds token) (answer reply) in
      let m1 = (set_hashed_password succeeds hashed m).0 in
      let (_, first) = attempt_or-done 500 (set_hashed_password succeeds hashed) after m cookie h in
      let h1 : (after m1).1 ≡ done cookie = ap (λ r. r.1) (sym first) ∙ h in
      let (_, second) =
        attempt_or-done 500 (set_auth_token succeeds token) (answer reply) m1 cookie h1 in
      let same = ap (λ r. r.1) second in
      let f1 = set_hashed_password-HasAccess hashed m in
      let f2 = set_auth_token-HasAccess token m1 in
      let whole = ap (λ r. r.0.config) (first ∙ second) in
      (
        sym same ∙ h1,
        (
          ap (λ c. c.hashed_password) whole ∙ f2.0 ∙ f1.0,
          ap (λ c. c.local_auth_token) whole ∙ f2.1,
          ap (λ c. c.local_auth_mode) whole ∙ f2.2 ∙ f1.2,
        ),
      )

-- The tests that a handler passed when it returns.
abbrev behind : Bool → Bool → Bool → Bool → Manager → Manager × Reply → Manager × Reply
behind b1 b2 b3 b4 m rest =
    if b1
    then (m, refused 400)
    else if b2
    then (m, refused 400)
    else if b3
    then (m, refused 400)
    else if b4
    then (m, refused 401)
    else rest

behind-done :
    (b1 b2 b3 b4 : Bool) (m : Manager) (rest : Manager × Reply) (cookie : Option Cookie)
    → (behind b1 b2 b3 b4 m rest).1 ≡ done cookie
    → (b2 ≡ false) × (b4 ≡ false) × (behind b1 b2 b3 b4 m rest ≡ rest)
behind-done true b2 b3 b4 m rest cookie h = cc
behind-done false true b3 b4 m rest cookie h = cc
behind-done false false true b4 m rest cookie h = cc
behind-done false false false true m rest cookie h = cc
behind-done false false false false m rest cookie h = (refl, refl, refl)

some_inj : {a b : Text} → some a ≡ some b → a ≡ b
some_inj h = cc

-- A cookie that is not the session's is refused where passwords are asked for.
shut :
    (verify_token : Text → Text → Bool) (cookie : Option Text) (c : Config)
    → is_mode no_password c ≡ false
    → ((token : Text)
        → c.local_auth_token ≡ some token
        → (text : Text) → cookie ≡ some text
        → text_eq text token ≡ false)
    → auth_middleware verify_token cookie none c ≡ false
unfolding auth_middleware validate_auth_token
shut verify_token none c mode other = rw mode refl
shut verify_token (some text) c mode other = elim (Option-cases c.local_auth_token) [
  | inl e ↦ rw (mode, e) refl
  | inr (token, e) ↦ let differs = other token e text refl in ground (arith, mode, e, differs)
]

-- Behind a logout that returns, no cookie opens a protected page, unless passwords are not asked for.
pub handle_logout-expired :
    (succeeds : ℕ → Bool) (verify verify_token : Text → Text → Bool) (cookie : Option Text)
    (sent : Option Cookie) (m : Manager)
    → is_mode no_password m.config ≡ false
    → (handle_logout succeeds verify m).1 ≡ done sent
    → auth_middleware verify_token cookie none (handle_logout succeeds verify m).0.config ≡ false
unfolding handle_logout
handle_logout-expired succeeds verify verify_token cookie sent m mode h =
    let f = set_auth_token succeeds none in
    let (_, ended) = attempt_or-done 500 f (answer (done (some expired))) m sent h in
    let fields = set_auth_token-HasAccess succeeds none m in
    let still : is_mode no_password (f m).0.config ≡ false = rw fields.2 mode in
    let out =
      shut verify_token cookie (f m).0.config still
        (λ token e text c. let none_left = sym fields.1 ∙ e in cc) in
    ap (λ r. auth_middleware verify_token cookie none r.0.config) ended ∙ out

true_of_not : (b : Bool) → not b ≡ false → b ≡ true
true_of_not true h = refl
true_of_not false h = cc

password_mode_asks : (c : Config) → is_mode password_mode c ≡ true → is_mode no_password c ≡ false
password_mode_asks c h =
    subst (λ t. text_eq t no_password ≡ false) (sym (text_eq→≡ c.local_auth_mode password_mode h))
      refl

sent_session :
    (sent : Option Cookie) (token : Text)
    → done (some (session token)) ≡ done sent
    → sent ≡ some (session token)
sent_session sent token h = cc

changed_access :
    (verify verify_token : Text → Text → Bool) (password hash token mode : Text) (c : Config)
    → verify password hash ≡ true
    → text_eq mode no_password ≡ false
    → HasAccess (some hash) (some token) mode c
    → (validate_password verify password c ≡ true)
      × ((cookie : Text)
          → text_eq cookie token ≡ false
          → auth_middleware verify_token (some cookie) none c ≡ false)
unfolding validate_password
changed_access verify verify_token password hash token mode c fits asks fields =
    let no_bypass = subst (λ t. text_eq t no_password ≡ false) (sym fields.2) asks in
    (
      rw fields.0 fits,
      λ cookie differs. shut verify_token (some cookie) c no_bypass (λ t e text same.
          let token_same : t ≡ token = some_inj (sym e ∙ fields.1) in
          let text_same : text ≡ cookie = some_inj (sym same) in
          rw (token_same, text_same) differs),
    )

-- A change of the password that returns was given the old one; from then on the new one is the password, the
-- drawn token is the session, and the cookie of any other session is refused.
pub modify_password_local-session :
    (succeeds : ℕ → Bool) (verify verify_token : Text → Text → Bool)
    (change : ChangePasswordRequest) (hash token : Text) (sent : Option Cookie) (m : Manager)
    → verify change.new_password hash ≡ true
    → let (m', reply) = modify_password_local succeeds verify (some change) (some hash) token m in
      reply ≡ done sent
      → (sent ≡ some (session token))
        × (validate_password verify change.old_password m.config ≡ true)
        × (validate_password verify change.new_password m'.config ≡ true)
        × ((cookie : Text)
            → text_eq cookie token ≡ false
            → auth_middleware verify_token (some cookie) none m'.config ≡ false)
unfolding modify_password_local
modify_password_local-session succeeds verify verify_token change hash token sent m fits h =
    let reply = done (some (session token)) in
    let changed = change_password succeeds (some hash) (some token) reply m in
    let (mode, old, passed) =
      behind-done (not (is_some m.config.hashed_password)) (not (is_mode password_mode m.config))
        (text_eq change.old_password [] || text_eq change.new_password [])
        (not (validate_password verify change.old_password m.config)) m changed sent h in
    let ended = ap (λ r. r.1) (sym passed) ∙ h in
    let (same, fields) =
      change_password-HasAccess succeeds (some hash) (some token) reply sent m ended in
    let old_right = true_of_not (validate_password verify change.old_password m.config) old in
    let no_bypass =
      password_mode_asks m.config (true_of_not (is_mode password_mode m.config) mode) in
    let closed =
      changed_access verify verify_token change.new_password hash token m.config.local_auth_mode
        changed.0.config fits no_bypass fields in
    (
      sent_session sent token same,
      old_right,
      subst (λ r. validate_password verify change.new_password r.0.config ≡ true) (sym passed)
          closed.0,
      λ cookie differs.
          ap (λ r. auth_middleware verify_token (some cookie) none r.0.config) passed
          ∙ closed.1 cookie differs,
    )

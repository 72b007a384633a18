-- ===== src/Auth/Guessing.antt =====
-- app/src/web/auth.rs: an address that guesses passwords.
use mathlib.Core.Path.{subst}
use rustkvm.Common.{
  ℕ, ◌+◌, ◌-◌, ◌/◌, ◌≡◌, ◌≤◌, ◌<◌, refl, sym, ap, ◌∙◌, Option, none, some, Bool, true, false, arith,
  [], ◌∷◌, List,
}
use rustkvm.Common.Predicates.{All}
use rustkvm.Config.{Text, Config}
use rustkvm.Config.Manager.{validate_password, no_password}
use rustkvm.Auth.{Site, Reply, refused, is_mode, check_login, handle_login_local}
use rustkvm.RateLimit.{
  State, IpAddr, Entry, is_allowed, record_failure, check_entry, base_window, is_live,
}
use rustkvm.RateLimit.Bounds.{check_window-none}
use rustkvm.RateLimit.Sweep.{is_allowed_check, live_cleanup, missing_cleanup}
use rustkvm.RateLimit.Lock.{record_failure_first, counted, counted-is_live, count_step, lock_step}

-- A check by the limiter keeps a live entry, and makes none.
is_allowed-live :
    (t : ℕ) (a : IpAddr) (s : State) (e : Entry)
    → s.entries a ≡ some e
    → is_live e t ≡ true
    → (is_allowed t a s).0.entries a ≡ some e
unfolding is_allowed
is_allowed-live t a s e h live = live_cleanup t s a e h live

is_allowed-missing :
    (t : ℕ) (a : IpAddr) (s : State) → s.entries a ≡ none → (is_allowed t a s).0.entries a ≡ none
unfolding is_allowed
is_allowed-missing t a s h = missing_cleanup t s a h

locked-is_live :
    (start n until now : ℕ) → now < until → is_live (counted start n (some until)) now ≡ true
unfolding is_live
locked-is_live start n until now h = ground arith

-- A login with a password: when the limiter is asked, when the password is found wrong or right, and the
-- password.
abbrev pub Guess : Type 0
Guess = ℕ × ℕ × Text

-- A login: when the limiter is asked, when the password is found wrong or right, and the body.
abbrev pub Login : Type 0
Login = ℕ × ℕ × Option Text

module _ (succeeds : ℕ → Bool) (verify : Text → Text → Bool) (a : IpAddr) (token : Text) where
  abbrev pub log_in : Login → Site → Site × Reply
  log_in (now, later, body) s = handle_login_local succeeds verify now later (some a) body token s

  -- Logins of the address one after the other, and the replies to them.
  abbrev pub log_in_all : List Login → Site → Site × List Reply
  log_in_all [] s = (s, [])
  log_in_all (l ∷ ls) s =
      let (s', reply) = log_in l s in
      let (s'', replies) = log_in_all ls s' in (s'', reply ∷ replies)

  abbrev pub guess : Guess → Login
  guess (now, later, password) = (now, later, some password)

  -- The guess is wrong.
  abbrev pub IsWrong : Config → Guess → Type 0
  IsWrong c (now, later, password) = validate_password verify password c ≡ false

  -- The guess is checked and recorded within the base window from a time on.
  abbrev pub IsWithin : ℕ → Guess → Type 0
  IsWithin start (now, later, password) =
      (now ≤ start + base_window) × (later ≤ start + base_window)

  -- Where the passwords are in use and the limiter lets a wrong guess through, it is recorded as a failure.
  wrong_guess :
      (now later : ℕ) (password : Text) (s : Site)
      → is_mode no_password s.manager.config ≡ false
      → IsWrong s.manager.config (now, later, password)
      → (is_allowed now a s.limiter).1 ≡ none
      → log_in (now, later, some password) s ≡ (
        record s { limiter = record_failure later a (is_allowed now a s.limiter).0 },
        refused 401,
      )
  unfolding handle_login_local check_login
  wrong_guess now later password s mode wrong allowed = rw (mode, allowed, wrong) refl

  locked_login :
      (now later : ℕ) (body : Option Text) (s : Site) (wait : ℕ)
      → is_mode no_password s.manager.config ≡ false
      → (is_allowed now a s.limiter).1 ≡ some wait
      → log_in (now, later, body) s
        ≡ (record s { limiter = (is_allowed now a s.limiter).0 }, refused 429)
  unfolding handle_login_local
  locked_login now later body s wait mode locked = rw (mode, locked, handle_login_local) refl

  counted-allowed :
      (now start n : ℕ) (s : Site)
      → s.limiter.entries a ≡ some (counted start n none)
      → (is_allowed now a s.limiter).1 ≡ none
  unfolding check_entry
  counted-allowed now start n s e =
      is_allowed_check now a s.limiter
      ∙ ap (check_entry now) e
      ∙ check_window-none now (counted start n none)

  -- What a login leaves: its reply, the configuration as it was, and an entry of the address.
  abbrev Leaves : Site → ℕ → Entry → Site × Reply → Type 0
  Leaves s status e (s', reply) =
      (reply ≡ refused status) × (s'.manager ≡ s.manager) × (s'.limiter.entries a ≡ some e)

  first_guess :
      (now later : ℕ) (password : Text) (s : Site)
      → is_mode no_password s.manager.config ≡ false
      → IsWrong s.manager.config (now, later, password)
      → s.limiter.entries a ≡ none
      → Leaves s 401 (counted later 1 none) (log_in (now, later, some password) s)
  unfolding check_entry
  first_guess now later password s mode wrong free =
      let allowed = is_allowed_check now a s.limiter ∙ ap (check_entry now) free in
      let recorded =
        record_failure_first later a (is_allowed now a s.limiter).0
          (is_allowed-missing now a s.limiter free) in
      subst (Leaves s 401 (counted later 1 none))
        (sym (wrong_guess now later password s mode wrong allowed)) (refl, refl, recorded)

  next_guess :
      (start n : ℕ) (g : Guess) (s : Site)
      → is_mode no_password s.manager.config ≡ false
      → IsWrong s.manager.config g
      → IsWithin start g
      → n < 4
      → s.limiter.entries a ≡ some (counted start n none)
      → Leaves s 401 (counted start (n + 1) none) (log_in (guess g) s)
  next_guess start n (now, later, password) s mode wrong (soon, in_time) few e =
      let kept =
        is_allowed-live now a s.limiter (counted start n none) e
          (counted-is_live start n now soon) in
      let recorded = count_step a (is_allowed now a s.limiter).0 start n later in_time few kept in
      subst (Leaves s 401 (counted start (n + 1) none))
        (sym (wrong_guess now later password s mode wrong (counted-allowed now start n s e)))
        (refl, refl, recorded)

  last_guess :
      (start now later : ℕ) (password : Text) (s : Site)
      → is_mode no_password s.manager.config ≡ false
      → IsWrong s.manager.config (now, later, password)
      → IsWithin start (now, later, password)
      → s.limiter.entries a ≡ some (counted start 4 none)
      → Leaves s 401
          (counted start 5 (some (later + base_window)))
          (log_in (now, later, some password) s)
  last_guess start now later password s mode wrong (soon, in_time) e =
      let kept =
        is_allowed-live now a s.limiter (counted start 4 none) e
          (counted-is_live start 4 now soon) in
      let recorded = lock_step a (is_allowed now a s.limiter).0 start later in_time kept in
      subst (Leaves s 401 (counted start 5 (some (later + base_window))))
        (sym (wrong_guess now later password s mode wrong (counted-allowed now start 4 s e)))
        (refl, refl, recorded)

  locked_step :
      (start until : ℕ) (l : Login) (s : Site)
      → is_mode no_password s.manager.config ≡ false
      → l.0 < until
      → s.limiter.entries a ≡ some (counted start 5 (some until))
      → Leaves s 429 (counted start 5 (some until)) (log_in l s)
  unfolding check_entry
  locked_step start until (now, later, body) s mode soon e =
      let locked : check_entry now (some (counted start 5 (some until)))
          ≡ some ((until - now) / 1000 + 1) =
        ground arith in
      let refuses = is_allowed_check now a s.limiter ∙ ap (check_entry now) e ∙ locked in
      let kept =
        is_allowed-live now a s.limiter (counted start 5 (some until)) e
          (locked-is_live start 5 until now soon) in
      subst (Leaves s 429 (counted start 5 (some until)))
        (sym (locked_login now later body s ((until - now) / 1000 + 1) mode refuses))
        (refl, refl, kept)

  locked_logins :
      (start until : ℕ) (ls : List Login) (s : Site)
      → is_mode no_password s.manager.config ≡ false
      → All (λ l. l.0 < until) ls
      → s.limiter.entries a ≡ some (counted start 5 (some until))
      → let (s', replies) = log_in_all ls s in
        All (λ r. r ≡ refused 429) replies × (s'.manager ≡ s.manager)
  locked_logins start until [] s mode soon e = (tt, refl)
  locked_logins start until (l ∷ ls) s mode (first, soon) e =
      let (reply, same, kept) = locked_step start until l s mode first e in
      let still = ap (λ m. is_mode no_password m.config) same ∙ mode in
      let (replies, same_too) = locked_logins start until ls (log_in l s).0 still soon kept in
      ((reply, replies), same_too ∙ same)

  -- Five wrong guesses from one address, of which the limiter has no entry, one after the other, and the
  -- others checked and recorded within one base window from the record of the first: each is answered with
  -- 401. Then, until the length of the base window has passed since the record of the fifth, every login
  -- from the address, as many as there are and whatever password they send, the right one included, is
  -- answered with 429 and changes no configuration. (Each login is over before the next one begins.)
  pub five_guesses_lock :
      (s : Site) (now1 later1 now5 later5 : ℕ) (p1 p5 : Text) (g2 g3 g4 : Guess) (ls : List Login)
      → is_mode no_password s.manager.config ≡ false
      → s.limiter.entries a ≡ none
      → All (IsWrong s.manager.config) ((now1, later1, p1) ∷ g2 ∷ g3 ∷ g4 ∷ (now5, later5, p5) ∷ [])
      → All (IsWithin later1) (g2 ∷ g3 ∷ g4 ∷ (now5, later5, p5) ∷ [])
      → All (λ l. l.0 < later5 + base_window) ls
      → let (s', replies) =
          log_in_all
            ((now1, later1, some p1)
              ∷ guess g2
              ∷ guess g3
              ∷ guess g4
              ∷ (now5, later5, some p5)
              ∷ [])
            s in
        let (s'', more) = log_in_all ls s' in
        All (λ r. r ≡ refused 401) replies
        × All (λ r. r ≡ refused 429) more
        × (s''.manager ≡ s.manager)
  five_guesses_lock s now1 later1 now5 later5 p1 p5 g2 g3 g4 ls mode free
        (w1, (w2, (w3, (w4, (w5, w))))) (i2, (i3, (i4, (i5, i)))) soon =
      let s1 = (log_in (now1, later1, some p1) s).0 in
      let s2 = (log_in (guess g2) s1).0 in
      let s3 = (log_in (guess g3) s2).0 in
      let s4 = (log_in (guess g4) s3).0 in
      let s5 = (log_in (now5, later5, some p5) s4).0 in
      let (r1, m1, e1) = first_guess now1 later1 p1 s mode w1 free in
      let in_use =
        λ (t : Site) (m : t.manager ≡ s.manager). ap (λ q. is_mode no_password q.config) m ∙ mode in
      let wrong =
        λ (t : Site) (m : t.manager ≡ s.manager) (g : Guess) (w : IsWrong s.manager.config g).
          subst (λ q. IsWrong q.config g) (sym m) w in
      let (r2, m2, e2) =
        next_guess later1 1 g2 s1 (in_use s1 m1) (wrong s1 m1 g2 w2) i2 (omega arith) e1 in
      let n2 = m2 ∙ m1 in
      let (r3, m3, e3) =
        next_guess later1 2 g3 s2 (in_use s2 n2) (wrong s2 n2 g3 w3) i3 (omega arith) e2 in
      let n3 = m3 ∙ n2 in
      let (r4, m4, e4) =
        next_guess later1 3 g4 s3 (in_use s3 n3) (wrong s3 n3 g4 w4) i4 (omega arith) e3 in
      let n4 = m4 ∙ n3 in
      let (r5, m5, e5) =
        last_guess later1 now5 later5 p5 s4 (in_use s4 n4) (wrong s4 n4 (now5, later5, p5) w5) i5
          e4 in
      let n5 = m5 ∙ n4 in
      let (replies, same) =
        locked_logins later1 (later5 + base_window) ls s5 (in_use s5 n5) soon e5 in
      ((r1, (r2, (r3, (r4, (r5, tt))))), replies, same ∙ n5)

-- ===== src/Jiggler/Loops.antt =====
-- app/src/hardware/jiggler.rs: which loops run.
use mathlib.Core.Path.{subst}
use rustkvm.Common.{
  ℕ, ◌+◌, ◌≤◌, ◌<◌, ◌≡◌, refl, sym, ap, ◌∙◌, List, [], ◌∷◌, ◌++◌, Option, none, some, Bool, false,
  not, contains, filter, ◌==◌, arith, Bool-cases, Option-cases, inl, inr,
}
use rustkvm.Jiggler.{
  Jiggler, JigglerConfig, cancel_jiggler_cron, cancel_token, spawn_loop, run_jiggler_cron_tab,
  set_jiggler_config, running,
}

-- The calls that change the loops.
pub data Call : Type 0 where
  set_config : JigglerConfig → Call
  run_cron : Call
  cancel_cron : Call

abbrev pub call : Call → Jiggler → Jiggler
call (set_config config) s = set_jiggler_config config s
call run_cron s = run_jiggler_cron_tab s
call cancel_cron s = cancel_jiggler_cron s

abbrev pub calls : List Call → Jiggler → Jiggler
calls [] s = s
calls (c ∷ cs) s = calls cs (call c s)

abbrev pub token_list : Option ℕ → List ℕ
token_list none = []
token_list (some t) = t ∷ []

abbrev pub IsBelow : Option ℕ → ℕ → Type 0
IsBelow none n = Unit {0}
IsBelow (some t) n = t < n

-- The loop of the token that `JIGGLER_CANCEL` holds runs and no other; no token was cancelled before it was
-- made.
abbrev pub IsTracked : Jiggler → Type 0
IsTracked s =
    (running s ≡ token_list s.cancel)
    × IsBelow s.cancel s.tokens
    × ((n : ℕ) → s.tokens ≤ n → contains s.cancelled n ≡ false)

filter-append : (p : ℕ → Bool) (xs ys : List ℕ) → filter p (xs ++ ys) ≡ filter p xs ++ filter p ys
filter-append p [] ys = refl
filter-append p (x ∷ xs) ys = ground (arith, filter-append p xs ys)

-- A cancelled token takes its loop from those that run.
filter_cancelled :
    (t : ℕ) (cancelled loops : List ℕ)
    → filter (λ x. not (contains (t ∷ cancelled) x)) loops
      ≡ filter (λ x. not (t == x)) (filter (λ x. not (contains cancelled x)) loops)
filter_cancelled t cancelled [] = refl
filter_cancelled t cancelled (x ∷ loops) =
    let rest = filter_cancelled t cancelled loops in
    elim (Bool-cases (contains cancelled x)) [
      | inl e ↦ elim (Bool-cases (t == x)) [ inl f ↦ rw (e, f) rest | inr f ↦ rw (e, f) rest ]
      | inr e ↦ elim (Bool-cases (t == x)) [
        | inl f ↦ rw (e, f) rest
        | inr f ↦ rw (e, f) (ap (λ l. x ∷ l) rest)
      ]
    ]

same_token : (t : ℕ) → filter (λ x. not (t == x)) (t ∷ []) ≡ []
same_token t = ground arith

cancel_none : (s : Jiggler) → s.cancel ≡ none → cancel_jiggler_cron s ≡ s
unfolding cancel_jiggler_cron
cancel_none s no_token = ap (λ c. cancel_token c s) no_token

cancel_some :
    (s : Jiggler) (t : ℕ)
    → s.cancel ≡ some t
    → cancel_jiggler_cron s ≡ record s { cancel = none; cancelled = t ∷ s.cancelled }
unfolding cancel_jiggler_cron
cancel_some s t token = ap (λ c. cancel_token c s) token

cancel-IsTracked :
    (s : Jiggler)
    → IsTracked s
    → IsTracked (cancel_jiggler_cron s) × ((cancel_jiggler_cron s).cancel ≡ none)
unfolding running
cancel-IsTracked s (one, below, fresh) = elim (Option-cases s.cancel) [
  | inl no_token ↦
      subst (λ r. IsTracked r × (r.cancel ≡ none)) (sym (cancel_none s no_token))
        ((one, below, fresh), no_token)
  | inr (t, token) ↦
      let under : t < s.tokens = subst (λ c. IsBelow c s.tokens) token below in
      let left : running s ≡ t ∷ [] = one ∙ ap token_list token in
      let gone =
        filter_cancelled t s.cancelled s.loops
        ∙ ap (filter (λ x. not (t == x))) left
        ∙ same_token t in
      subst (λ r. IsTracked r × (r.cancel ≡ none)) (sym (cancel_some s t token))
        ((gone, tt, λ n le. ground (arith, fresh n le)), refl)
]

spawn-IsTracked : (s : Jiggler) → s.cancel ≡ none → IsTracked s → IsTracked (spawn_loop s)
unfolding spawn_loop running
spawn-IsTracked s no_token (one, below, fresh) =
    let p : ℕ → Bool = (λ t. not (contains s.cancelled t)) in
    let before : running s ≡ [] = one ∙ ap token_list no_token in
    let new = fresh s.tokens (omega arith) in
    let last : filter p (s.tokens ∷ []) ≡ s.tokens ∷ [] = rw new refl in
    (
      filter-append p s.loops (s.tokens ∷ [])
          ∙ ap (λ l. l ++ filter p (s.tokens ∷ [])) before
          ∙ last,
      omega arith,
      λ n le. fresh n (omega arith),
    )

cancel_token-tokens : (c : Option ℕ) (s : Jiggler) → (cancel_token c s).tokens ≡ s.tokens
cancel_token-tokens none s = refl
cancel_token-tokens (some t) s = refl

both_run :
    (s : Jiggler)
    → s.cancel ≡ none
    → IsTracked s
    → let both = spawn_loop (spawn_loop s) in
      (running both ≡ s.tokens ∷ (s.tokens + 1) ∷ [])
      × (running (cancel_jiggler_cron both) ≡ s.tokens ∷ [])
unfolding spawn_loop running cancel_jiggler_cron
both_run s no_token h =
    let n = s.tokens in
    let (one, below, fresh) = spawn-IsTracked s no_token h in
    let p : ℕ → Bool = (λ t. not (contains s.cancelled t)) in
    let new = fresh (n + 1) (omega arith) in
    let last : filter p ((n + 1) ∷ []) ≡ (n + 1) ∷ [] = rw new refl in
    let two : running (spawn_loop (spawn_loop s)) ≡ n ∷ (n + 1) ∷ [] =
      filter-append p (s.loops ++ (n ∷ [])) ((n + 1) ∷ [])
      ∙ ap (λ l. l ++ filter p ((n + 1) ∷ [])) one
      ∙ ap (λ l. n ∷ l) last in
    let first_left : filter (λ x. not ((n + 1) == x)) (n ∷ (n + 1) ∷ []) ≡ n ∷ [] = ground arith in
    (
      two,
      filter_cancelled (n + 1) s.cancelled ((s.loops ++ (n ∷ [])) ++ ((n + 1) ∷ []))
          ∙ ap (filter (λ x. not ((n + 1) == x))) two
          ∙ first_left,
    )

-- Two starts of which each cancels before the other spawns leave two loops running, and a later cancel stops
-- only the second.
pub starts_race :
    (s : Jiggler)
    → IsTracked s
    → let both = spawn_loop (spawn_loop (cancel_jiggler_cron (cancel_jiggler_cron s))) in
      (running both ≡ s.tokens ∷ (s.tokens + 1) ∷ [])
      × (running (cancel_jiggler_cron both) ≡ s.tokens ∷ [])
unfolding cancel_jiggler_cron
starts_race s h =
    let (kept, none_left) = cancel-IsTracked s h in
    let same = cancel_none (cancel_jiggler_cron s) none_left in
    let count : (cancel_jiggler_cron s).tokens ≡ s.tokens = cancel_token-tokens s.cancel s in
    let (two, one) = both_run (cancel_jiggler_cron s) none_left kept in
    rw same (two ∙ ap (λ n. n ∷ (n + 1) ∷ []) count, one ∙ ap (λ n. n ∷ []) count)

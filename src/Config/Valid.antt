-- ===== src/Config/Valid.antt =====
-- app/src/config/types.rs: a configuration that passed its validation.
use rustkvm.Common.{ℕ, ◌≡◌, refl, List, [], ◌∷◌, Bool, true, ◌&&◌, length, arith}
use rustkvm.Config.{
  Config, KeyboardMacro, KeyboardMacroStep, clamp, validate_step, validate_steps, validate_macro,
  validate_macros, checks, validate,
}

-- A value that the validation lets through and leaves as it is.
abbrev IsFixed {ℓ} : {A : Type ℓ} → (A → A × Bool) → A → Type ℓ
IsFixed f a = f a ≡ (a, true)

validate_step-IsFixed :
    (step : KeyboardMacroStep)
    → (validate_step step).1 ≡ true
    → IsFixed validate_step (validate_step step).0
unfolding validate_step
validate_step-IsFixed step h = ground arith

validate_steps-length :
    (steps : List KeyboardMacroStep) → length (validate_steps steps).0 ≡ length steps
unfolding validate_steps
validate_steps-length [] = refl
validate_steps-length (step ∷ steps) =
    let rest = validate_steps-length steps in ground (arith, rest)

validate_steps-IsFixed :
    (steps : List KeyboardMacroStep)
    → (validate_steps steps).1 ≡ true
    → IsFixed validate_steps (validate_steps steps).0
unfolding validate_steps
validate_steps-IsFixed [] h = refl
validate_steps-IsFixed (step ∷ steps) h =
    let first = validate_step-IsFixed step (ground arith) in
    let rest = validate_steps-IsFixed steps (ground arith) in ground (arith, first, rest)

validate_macro-IsFixed :
    (m : KeyboardMacro) → (validate_macro m).1 ≡ true → IsFixed validate_macro (validate_macro m).0
unfolding validate_macro
validate_macro-IsFixed m h =
    let same = validate_steps-IsFixed m.steps in
    let long = validate_steps-length m.steps in ground (arith, same, long)

validate_macros-length : (ms : List KeyboardMacro) → length (validate_macros ms).0 ≡ length ms
unfolding validate_macros
validate_macros-length [] = refl
validate_macros-length (m ∷ ms) = let rest = validate_macros-length ms in ground (arith, rest)

validate_macros-IsFixed :
    (ms : List KeyboardMacro)
    → (validate_macros ms).1 ≡ true
    → IsFixed validate_macros (validate_macros ms).0
unfolding validate_macros
validate_macros-IsFixed [] h = refl
validate_macros-IsFixed (m ∷ ms) h =
    let first = validate_macro-IsFixed m (ground arith) in
    let rest = validate_macros-IsFixed ms (ground arith) in ground (arith, first, rest)

-- The checks read of the macros only how many there are.
checks_same :
    (c : Config) (ms : List KeyboardMacro) (n : ℕ)
    → length ms ≡ length c.keyboard_macros
    → checks (record c {
      keyboard_macros = ms;
      network_config = record c.network_config { time_sync_parallel = n };
    })
      ≡ checks c
unfolding checks
checks_same c ms n h = rw h refl

clamp_idem : (n : ℕ) → clamp 1 16 (clamp 1 16 n) ≡ clamp 1 16 n
clamp_idem n = omega arith

both : (a b : Bool) → (a && b) ≡ true → (a ≡ true) × (b ≡ true)
both a b h = (ground arith, ground arith)

-- A configuration that passes its validation passes it again, and is changed no more.
pub validate_idem :
    (c : Config) → (validate c).1 ≡ true → validate (validate c).0 ≡ ((validate c).0, true)
unfolding validate
validate_idem c h =
    let parts = both (checks c) (validate_macros c.keyboard_macros).1 h in
    let ms = (validate_macros c.keyboard_macros).0 in
    let fixed = validate_macros-IsFixed c.keyboard_macros parts.1 in
    let same =
      checks_same c ms (clamp 1 16 c.network_config.time_sync_parallel)
        (validate_macros-length c.keyboard_macros) in
    let once = clamp_idem c.network_config.time_sync_parallel in
    let passes = parts.0 in rw (fixed, same, once, passes) refl

-- ===== src/Relock/Spacing.antt =====
-- app/src/hardware/v4l2.rs: the replugs of a relock loop keep their distance.
use rustkvm.Common.{
  ℕ, zero, suc, ◌^◌, ◌+◌, ◌-◌, ◌<◌, ◌≡◌, min, refl, List, [], ◌∷◌, some, Bool, true, false, ltb,
  leb, ◌==◌, arith, Bool-cases, inl, inr,
}
use rustkvm.Relock.{
  RelockWatch, RelockVerdict, quiet, storm, replug, observe, backoff, settle, is_due, is_settled,
  is_over, recent_events, total_events, threshold,
}

abbrev pub is_replug : RelockVerdict → Bool
is_replug quiet = false
is_replug (storm n) = false
is_replug (replug n k) = true

-- A watch whose last replug, the one behind `k` others of the episode, was at a time.
abbrev pub IsWaiting : ℕ → ℕ → RelockWatch → Type 0
IsWaiting t k w = (w.last_replug ≡ some t) × (w.attempts ≡ suc k)

observe-replug :
    (w : RelockWatch) (now events : ℕ)
    → is_replug (observe w now events).1 ≡ true
    → IsWaiting now w.attempts (observe w now events).0
unfolding observe
observe-replug w now events h =
    let total = total_events (recent_events w now events) in
    elim (Bool-cases (ltb total threshold)) [
      | inl few ↦ absurd (ground (arith, few))
      | inr many ↦ elim (Bool-cases (is_due w now)) [
        | inl due ↦ rw (many, due) (refl, omega arith)
        | inr early ↦ absurd (ground (arith, many, early))
      ]
    ]

pow_positive : (m : ℕ) → 0 < 2 ^ m
pow_positive zero = omega arith
pow_positive (suc m) = let rest = pow_positive m in omega arith

backoff_positive : (k : ℕ) → 0 < backoff k
unfolding backoff
backoff_positive k = let power = pow_positive (min k 5) in omega arith

not_over : (wait now t : ℕ) → 0 < wait → now < t + wait → leb wait (now - t) ≡ false
not_over wait now t some_time h = ground arith

observe-IsWaiting :
    (t k : ℕ) (w : RelockWatch) (now events : ℕ)
    → IsWaiting t k w
    → now < t + min (backoff k) settle
    → IsWaiting t k (observe w now events).0 × (is_replug (observe w now events).1 ≡ false)
unfolding observe is_due
observe-IsWaiting t k w now events (last, count) soon =
    let total = total_events (recent_events w now events) in
    let fresh : is_settled w.last_replug now ≡ false = rw last (ground arith) in
    let first : (w.attempts == 0) ≡ false = rw count (ground arith) in
    let before_last : w.attempts - 1 ≡ k = omega arith in
    let over : is_over w.last_replug now (backoff (w.attempts - 1)) ≡ false =
      rw (last, before_last) (not_over (backoff k) now t (backoff_positive k) (omega arith)) in
    let early : is_due w now ≡ false = rw (first, over) refl in
    elim (Bool-cases (ltb total threshold)) [
      | inl few ↦ rw (few, fresh) ((last, count), refl)
      | inr many ↦ rw (many, early) ((last, count), refl)
    ]

-- Observations of which every one is before a time.
abbrev pub AllBefore : ℕ → List (ℕ × ℕ) → Type 0
AllBefore end [] = Unit {0}
AllBefore end ((now, events) ∷ rest) = (now < end) × AllBefore end rest

-- None of the observations makes a replug.
abbrev pub MakesNone : RelockWatch → List (ℕ × ℕ) → Type 0
MakesNone w [] = Unit {0}
MakesNone w ((now, events) ∷ rest) =
    (is_replug (observe w now events).1 ≡ false) × MakesNone (observe w now events).0 rest

waiting-MakesNone :
    (t k : ℕ) (rest : List (ℕ × ℕ)) (w : RelockWatch)
    → IsWaiting t k w
    → AllBefore (t + min (backoff k) settle) rest
    → MakesNone w rest
waiting-MakesNone t k [] w h before = tt
waiting-MakesNone t k ((now, events) ∷ rest) w h (soon, before) =
    let (waiting, none_made) = observe-IsWaiting t k w now events h soon in
    (none_made, waiting-MakesNone t k rest (observe w now events).0 waiting before)

-- A replug is not followed by another one before the backoff of its attempt is over or five minutes have
-- passed, whichever is shorter, whatever events are reported in between.
pub replugs_spaced :
    (w : RelockWatch) (now events : ℕ) (rest : List (ℕ × ℕ))
    → is_replug (observe w now events).1 ≡ true
    → AllBefore (now + min (backoff w.attempts) settle) rest
    → MakesNone (observe w now events).0 rest
replugs_spaced w now events rest made before =
    waiting-MakesNone now w.attempts rest (observe w now events).0
      (observe-replug w now events made) before

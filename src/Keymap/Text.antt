-- ===== src/Keymap/Text.antt =====
-- crates/rkvm-proto/src/keymap.rs: typed text as a host with a US keyboard reads it.
use mathlib.Core.Path.{subst}
use rustkvm.Common.{
  ℕ, ◌+◌, ◌≡◌, ◌≢◌, refl, sym, ◌||◌, contains, List, [], ◌∷◌, ◌++◌, false, not, if◌then◌else◌, ◌==◌,
  length, ==_ne, set, filter, none, arith, append-nil, append_assoc, Bool-cases, Option-cases, ◌⊎◌,
  inl, inr,
}
use rustkvm.Common.Predicates.{All}
use rustkvm.HidRpc.MacroReport.{KeyboardMacroStep}
use rustkvm.Keymap.{char_to_keystroke}
use rustkvm.Keymap.Typing.{us_char, us_char-char_to_keystroke}
use rustkvm.Keymap.Macro.{
  ok, err, unsupported_character, no_keys, press_and_release, text_steps, text_to_macro_steps,
}

-- The characters that the keys of a report type: those of the keys that were not down in the report before.
typed_keys : List ℕ → ℕ → List ℕ → List ℕ
typed_keys held modifier [] = []
typed_keys held modifier (k ∷ keys) =
    let rest = typed_keys held modifier keys in
    if k == 0 || contains held k then rest else us_char modifier k ∷ rest

-- What a host with a US keyboard reads from a macro, with the keys that are down before it.
pub typed_from : List ℕ → List KeyboardMacroStep → List ℕ
unfolding typed_keys
typed_from held [] = []
typed_from held (s ∷ steps) = typed_keys held s.modifier s.keys ++ typed_from s.keys steps

-- And from a macro that begins with no key down.
abbrev pub typed : List KeyboardMacroStep → List ℕ
typed steps = typed_from [] steps

-- The keys that are down behind a macro.
abbrev held_after : List ℕ → List KeyboardMacroStep → List ℕ
held_after held [] = held
held_after held (s ∷ steps) = held_after s.keys steps

typed-append :
    (held : List ℕ) (xs ys : List KeyboardMacroStep)
    → typed_from held (xs ++ ys) ≡ typed_from held xs ++ typed_from (held_after held xs) ys
unfolding typed_from
typed-append held [] ys = refl
typed-append held (s ∷ xs) ys = rw (typed-append s.keys xs ys) (
    sym (
      append_assoc (typed_keys held s.modifier s.keys) (typed_from s.keys xs)
        (typed_from (held_after s.keys xs) ys)))

held_after-append :
    (held : List ℕ) (xs ys : List KeyboardMacroStep)
    → held_after held (xs ++ ys) ≡ held_after (held_after held xs) ys
held_after-append held [] ys = refl
held_after-append held (s ∷ xs) ys = held_after-append s.keys xs ys

-- No key is down.
abbrev IsReleased : List ℕ → Type 0
IsReleased held = (k : ℕ) → k ≢ 0 → contains held k ≡ false

typed-press_and_release :
    (held : List ℕ) (m u hold gap : ℕ)
    → IsReleased held
    → u ≢ 0
    → typed_from held (press_and_release m (set no_keys 0 u) hold gap) ≡ us_char m u ∷ []
unfolding typed_from
typed-press_and_release held m u hold gap up h = let free = up u h in ground (arith, free)

press_and_release-IsReleased :
    (held : List ℕ) (m u hold gap : ℕ)
    → IsReleased (held_after held (press_and_release m (set no_keys 0 u) hold gap))
press_and_release-IsReleased held m u hold gap k h = ground arith

-- A carriage return types nothing: the line feed that follows it does.
abbrev pub without_returns : List ℕ → List ℕ
without_returns = filter (λ c. not (c == 0x0d))

typed-text_steps :
    (index : ℕ) (text : List ℕ) (delay_ms : ℕ) (acc steps : List KeyboardMacroStep)
    → IsReleased (held_after [] acc)
    → text_steps index text delay_ms acc ≡ ok steps
    → typed steps ≡ typed acc ++ without_returns text
unfolding text_steps
typed-text_steps index [] delay_ms acc steps up h = rw append-nil (ground arith)
typed-text_steps index (c ∷ text) delay_ms acc steps up h = elim (Bool-cases (c == 0x0d)) [
  | inl return ↦ ground (arith, typed-text_steps (index + 1) text delay_ms acc steps up)
  | inr other ↦ elim (Option-cases (char_to_keystroke c)) [
    | inl e ↦ ground (arith)
    | inr ((m, u), e) ↦
        let step = press_and_release m (set no_keys 0 u) delay_ms delay_ms in
        let (reads, key) = us_char-char_to_keystroke c m u e in
        let one = typed-press_and_release (held_after [] acc) m u delay_ms delay_ms up key in
        let still : IsReleased (held_after [] (acc ++ step)) =
          subst IsReleased (sym (held_after-append [] acc step))
            (press_and_release-IsReleased (held_after [] acc) m u delay_ms delay_ms) in
        ground (
          arith,
          reads,
          one,
          typed-append [] acc step,
          append_assoc (typed acc) (c ∷ []) (without_returns text),
          typed-text_steps (index + 1) text delay_ms (acc ++ step) steps still,
        )
  ]
]

-- Text that is accepted is typed exactly: a host with a US keyboard that plays the macro reads the
-- text, less its carriage returns.
pub typed-text_to_macro_steps :
    (text : List ℕ) (delay_ms : ℕ) {steps : List KeyboardMacroStep}
    → text_to_macro_steps text delay_ms ≡ ok steps
    → typed steps ≡ without_returns text
unfolding text_to_macro_steps typed_from
typed-text_to_macro_steps text delay_ms {steps} h =
    typed-text_steps 0 text delay_ms [] steps (λ k nonzero. refl) h

abbrev pub IsTypeable : ℕ → Type 0
IsTypeable c = (c ≡ 0x0d) ⊎ (char_to_keystroke c ≢ none)

not_typeable : (c : ℕ) → ¬ IsTypeable c → ((c == 0x0d) ≡ false) × (char_to_keystroke c ≡ none)
not_typeable c bad = (
  ==_ne c 0x0d (λ e. bad (inl e)),
  elim (Option-cases (char_to_keystroke c)) [
    | inl e ↦ e
    | inr (s, e) ↦ absurd (bad (inr (λ z. cc)))
  ],
)

text_steps_fails :
    (index : ℕ) (front : List ℕ) (c : ℕ) (back : List ℕ) (delay_ms : ℕ)
    (acc : List KeyboardMacroStep)
    → All IsTypeable front
    → ¬ IsTypeable c
    → text_steps index (front ++ (c ∷ back)) delay_ms acc
      ≡ err (unsupported_character c (index + length front))
unfolding text_steps
text_steps_fails index [] c back delay_ms acc h bad = ground (arith, not_typeable c bad)
text_steps_fails index (x ∷ front) c back delay_ms acc h bad =
    elim (Option-cases (char_to_keystroke x)) [
      | inl e ↦ ground (arith, text_steps_fails (index + 1) front c back delay_ms acc h.1 bad)
      | inr ((m, u), e) ↦
          let step = press_and_release m (set no_keys 0 u) delay_ms delay_ms in
          ground (
            arith,
            text_steps_fails (index + 1) front c back delay_ms acc h.1 bad,
            text_steps_fails (index + 1) front c back delay_ms (acc ++ step) h.1 bad,
          )
    ]

-- A character that no key types, behind characters that are typeable, is refused with its index, whatever
-- follows it.
pub text_to_macro_steps_unsupported :
    (front : List ℕ) (c : ℕ) (back : List ℕ) (delay_ms : ℕ)
    → All IsTypeable front
    → ¬ IsTypeable c
    → text_to_macro_steps (front ++ (c ∷ back)) delay_ms
      ≡ err (unsupported_character c (length front))
unfolding text_to_macro_steps
text_to_macro_steps_unsupported front c back delay_ms h bad =
    ground (arith, text_steps_fails 0 front c back delay_ms [] h bad)

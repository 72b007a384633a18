-- ===== src/Atx/Buttons.antt =====
-- app/src/power/atx.rs: the presses of the buttons, and the mount.
use rustkvm.Common.{
  ℕ, ◌+◌, ◌≡◌, refl, List, [], ◌∷◌, ◌++◌, Bool, true, false, Option, arith, ◌⊎◌, inl, inr,
  append_assoc, Bool-cases, if◌then◌else◌,
}
use rustkvm.Common.Map.{text_eq→≡}
use rustkvm.Common.Text.{codes, text_eq}
use rustkvm.Atx.{
  Atx, AtxState, Action, Effect, export, direction, level, sleep, and_then, pause, sysfs_write,
  init_output_pin, init_input_pin, init_pins, store_leds, init_state, mount_atx_control,
  pulse_output_pin, press_atx_power_button, press_atx_reset_button, set_atx_power_action,
}

Keeps : Action → Type 0
Keeps f = (s : Atx) → (f s).0.mounted ≡ s.mounted

sysfs_write-Keeps : (succeeds : ℕ → Bool) (e : Effect) → Keeps (sysfs_write succeeds e)
unfolding Keeps sysfs_write
sysfs_write-Keeps succeeds e s = ground arith

pause-Keeps : (ms : ℕ) → Keeps (pause ms)
unfolding Keeps pause
pause-Keeps ms s = refl

and_then-Keeps : (f g : Action) → Keeps f → Keeps g → Keeps (and_then f g)
unfolding Keeps and_then
and_then-Keeps f g hf hg s = let a = hf s in let b = hg (f s).0 in ground arith

init_output_pin-Keeps : (succeeds : ℕ → Bool) (pin : ℕ) → Keeps (init_output_pin succeeds pin)
unfolding init_output_pin
init_output_pin-Keeps succeeds pin = and_then-Keeps _ _ (sysfs_write-Keeps succeeds (export pin)) (
    and_then-Keeps _ _ (pause-Keeps 50) (
      and_then-Keeps _ _ (sysfs_write-Keeps succeeds (direction pin true))
        (sysfs_write-Keeps succeeds (level pin false))))

init_input_pin-Keeps : (succeeds : ℕ → Bool) (pin : ℕ) → Keeps (init_input_pin succeeds pin)
unfolding init_input_pin
init_input_pin-Keeps succeeds pin =
    and_then-Keeps _ _ (sysfs_write-Keeps succeeds (export pin))
      (and_then-Keeps _ _ (pause-Keeps 50) (sysfs_write-Keeps succeeds (direction pin false)))

init_pins-Keeps : (succeeds : ℕ → Bool) → Keeps (init_pins succeeds)
unfolding init_pins
init_pins-Keeps succeeds = and_then-Keeps _ _ (init_output_pin-Keeps succeeds 124) (
    and_then-Keeps _ _ (init_output_pin-Keeps succeeds 125)
      (and_then-Keeps _ _ (init_input_pin-Keeps succeeds 126) (init_input_pin-Keeps succeeds 127)))

mounted_after :
    (succeeds : ℕ → Bool) (read : Option AtxState) (s : Atx)
    → (mount_atx_control succeeds read s).0.mounted ≡ true
unfolding mount_atx_control store_leds init_state Keeps
mounted_after succeeds read s =
    let q = init_pins-Keeps succeeds (record s { mounted = true }) in ground arith

mount_mounted :
    (succeeds : ℕ → Bool) (read : Option AtxState) (t : Atx)
    → t.mounted ≡ true
    → mount_atx_control succeeds read t ≡ (t, true)
unfolding mount_atx_control
mount_mounted succeeds read t h = rw h refl

-- Once it was tried, mounting does nothing and succeeds, also when the first try failed half-way: the pins
-- that were not initialised stay so.
pub mount_atx_control_once :
    (succeeds : ℕ → Bool) (read again : Option AtxState) (s : Atx)
    → mount_atx_control succeeds again (mount_atx_control succeeds read s).0
      ≡ ((mount_atx_control succeeds read s).0, true)
mount_atx_control_once succeeds read again s =
    mount_mounted succeeds again (mount_atx_control succeeds read s).0
      (mounted_after succeeds read s)

-- The effects of a button that is pressed and let go.
abbrev pub press : ℕ → ℕ → List Effect
press pin ms = level pin true ∷ sleep ms ∷ level pin false ∷ []

-- A pulse that returns has pressed the button and let it go; one that fails has done nothing, or has left
-- the button pressed when the second write failed.
pub pulse_output_pin_outcomes :
    (succeeds : ℕ → Bool) (pin ms : ℕ) (s : Atx)
    → let (s', done) = pulse_output_pin succeeds pin ms s in
      ((done ≡ true) × (s'.effects ≡ s.effects ++ press pin ms))
      ⊎ (((done ≡ false) × (s'.effects ≡ s.effects))
          ⊎ ((done ≡ false) × (s'.effects ≡ s.effects ++ (level pin true ∷ sleep ms ∷ []))))
unfolding pulse_output_pin sysfs_write and_then pause
pulse_output_pin_outcomes succeeds pin ms s =
    let two = append_assoc s.effects (level pin true ∷ []) (sleep ms ∷ []) in
    let three = append_assoc s.effects (level pin true ∷ sleep ms ∷ []) (level pin false ∷ []) in
    elim (Bool-cases (succeeds s.tried)) [
      | inr a ↦ inr (inl (ground arith, ground arith))
      | inl a ↦ elim (Bool-cases (succeeds (s.tried + 1))) [
        | inl b ↦ inl (ground arith, ground (arith, two, three))
        | inr b ↦ inr (inr (ground arith, ground (arith, two, three)))
      ]
    ]

pulse_pressed :
    (succeeds : ℕ → Bool) (pin ms : ℕ) (s : Atx)
    → (pulse_output_pin succeeds pin ms s).1 ≡ true
    → (pulse_output_pin succeeds pin ms s).0.effects ≡ s.effects ++ press pin ms
pulse_pressed succeeds pin ms s h = elim (pulse_output_pin_outcomes succeeds pin ms s) [
  | inl (a, b) ↦ b
  | inr (inl (a, b)) ↦ cc
  | inr (inr (a, b)) ↦ cc
]

-- What each of the three actions presses, and for how long.
abbrev pub IsPress : List ℕ → List Effect → List Effect → Type 0
IsPress action before after =
    ((action ≡ codes "power-short") × (after ≡ before ++ press 124 200))
    ⊎ (((action ≡ codes "power-long") × (after ≡ before ++ press 124 5000))
        ⊎ ((action ≡ codes "reset") × (after ≡ before ++ press 125 200)))

chosen :
    (action : List ℕ) (short long reset : Bool) (p q r s : Atx × Bool) (before : List Effect)
    → (short ≡ true → action ≡ codes "power-short")
    → (long ≡ true → action ≡ codes "power-long")
    → (reset ≡ true → action ≡ codes "reset")
    → (p.1 ≡ true → p.0.effects ≡ before ++ press 124 200)
    → (q.1 ≡ true → q.0.effects ≡ before ++ press 124 5000)
    → (r.1 ≡ true → r.0.effects ≡ before ++ press 125 200)
    → s.1 ≡ false
    → (if short then p else if long then q else if reset then r else s).1 ≡ true
    → IsPress action before
        (if short then p else if long then q else if reset then r else s).0.effects
chosen action true long reset p q r s before a b c hp hq hr hs h = inl (a refl, hp h)
chosen action false true reset p q r s before a b c hp hq hr hs h = inr (inl (b refl, hq h))
chosen action false false true p q r s before a b c hp hq hr hs h = inr (inr (c refl, hr h))
chosen action false false false p q r s before a b c hp hq hr hs h = cc

-- A power action that returns is one of three, and has pressed its button and let it go: power-short the power
-- button for 200 ms, power-long the power button for 5000 ms, and reset the reset button for 200 ms.
pub set_atx_power_action-IsPress :
    (succeeds : ℕ → Bool) (action : List ℕ) (s : Atx)
    → (set_atx_power_action succeeds action s).1 ≡ true
    → IsPress action s.effects (set_atx_power_action succeeds action s).0.effects
unfolding set_atx_power_action press_atx_power_button press_atx_reset_button
set_atx_power_action-IsPress succeeds action s h =
    chosen action (text_eq action (codes "power-short")) (text_eq action (codes "power-long"))
      (text_eq action (codes "reset")) _ _ _ (s, false) s.effects
      (text_eq→≡ action (codes "power-short")) (text_eq→≡ action (codes "power-long"))
      (text_eq→≡ action (codes "reset")) (pulse_pressed succeeds 124 200 s)
      (pulse_pressed succeeds 124 5000 s) (pulse_pressed succeeds 125 200 s) refl h

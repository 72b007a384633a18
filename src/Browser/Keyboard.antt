-- ===== src/Browser/Keyboard.antt =====
-- crates/rkvm-web/src/hid/mod.rs: the browser's keys, and what they become on the device.
use mathlib.Core.Path.{subst}
use rustkvm.Common.{
  ℕ, ◌≡◌, ◌≤◌, refl, ap, ◌∙◌, List, [], ◌∷◌, Bool, true, false, not, ◌&&◌, ltb, ◌==◌, length,
  filter, contains, replicate, some, arith, Distinct, Distinct-snoc, Bool-cases, Option-cases, inl,
  inr, length-append, take,
}
use rustkvm.Keymap.{code_to_modifier, code_to_usage}
use rustkvm.HidRpc.{marshal}
use rustkvm.HidRpc.Payload.{new_keyboard_report_message}
use rustkvm.Hid.Keys.{KeysDownState}
use rustkvm.Hid.Device.{Hid, keyboard_report, copy_keys}
use rustkvm.Hid.Sent.{keyboard_report-keys_down}
use rustkvm.Dispatcher.{Dispatcher, dispatch}
use rustkvm.Dispatcher.Frames.{dispatch-new_keyboard_report_message}
use rustkvm.Browser.{
  KbState, key_slots, send_keyboard, press_usage, keydown, release, release_usage, keyup,
}

-- At most six keys are held, each once.
pub record IsKb (st : KbState) : Type 0 where
  pub fits : length st.keys ≤ 6
  pub distinct : Distinct st.keys

contains-filter :
    (p : ℕ → Bool) (k : ℕ) (keys : List ℕ)
    → contains keys k ≡ false
    → contains (filter p keys) k ≡ false
contains-filter p k [] h = refl
contains-filter p k (x ∷ keys) h = let i = contains-filter p k keys in ground arith

filter-Distinct : (p : ℕ → Bool) (keys : List ℕ) → Distinct keys → Distinct (filter p keys)
filter-Distinct p [] h = tt
filter-Distinct p (x ∷ keys) (a, b) = elim (Bool-cases (p x)) [
  | inl e ↦ rw e (contains-filter p x keys a, filter-Distinct p keys b)
  | inr e ↦ rw e (filter-Distinct p keys b)
]

length-filter : (p : ℕ → Bool) (keys : List ℕ) → length (filter p keys) ≤ length keys
length-filter p [] = omega arith
length-filter p (x ∷ keys) = let i = length-filter p keys in ground arith

press_usage-IsKb : (u : ℕ) (st : KbState) → IsKb st → IsKb (press_usage u st)
unfolding press_usage
press_usage-IsKb u st h = elim (Bool-cases (not (contains st.keys u) && ltb (length st.keys) 6)) [
  | inr e ↦ rw e h
  | inl e ↦ rw e (record {
    fits = ground (arith, length-append st.keys (u ∷ []));
    distinct = Distinct-snoc st.keys u h.distinct (ground arith);
  })
]

keydown-IsKb :
    (local connected : Bool) (code : List ℕ) (st : KbState)
    → IsKb st
    → IsKb (keydown local connected code st).0
unfolding keydown
keydown-IsKb true connected code st h = h
keydown-IsKb false connected code st h = elim (Option-cases (code_to_modifier code)) [
  | inr (bit, e) ↦ rw e (record { fits = h.fits; distinct = h.distinct })
  | inl e ↦ elim (Option-cases (code_to_usage code)) [
    | inr (u, f) ↦ rw (e, f) (press_usage-IsKb u st h)
    | inl f ↦ rw (e, f) h
  ]
]

release_keeps :
    (local held connected : Bool) (st : KbState) → (release local held connected st).0 ≡ st
unfolding release
release_keeps local held connected st = ground arith

keyup-IsKb :
    (local connected : Bool) (code : List ℕ) (st : KbState)
    → IsKb st
    → IsKb (keyup local connected code st).0
unfolding keyup release_usage
keyup-IsKb local connected code st h = elim (Option-cases (code_to_modifier code)) [
  | inr (bit, e) ↦ rw (keyup, e, release_keeps) (record { fits = h.fits; distinct = h.distinct })
  | inl e ↦ elim (Option-cases (code_to_usage code)) [
    | inr (u, f) ↦
        rw (keyup, e, f, release_keeps)
          (record {
            fits = omega (arith, length-filter (λ k. not (k == u)) st.keys, h.fits);
            distinct = filter-Distinct (λ k. not (k == u)) st.keys h.distinct;
          })
    | inl f ↦ rw (keyup, e, f) h
  ]
]

-- The events of the page, one after the other.
pub data Event : Type 0 where
  down : Bool → Bool → List ℕ → Event
  up : Bool → Bool → List ℕ → Event

unfoldable pub on_event : Event → KbState → KbState
on_event (down local connected code) st = (keydown local connected code st).0
on_event (up local connected code) st = (keyup local connected code st).0

unfoldable pub on_events : List Event → KbState → KbState
on_events [] st = st
on_events (e ∷ events) st = on_events events (on_event e st)

on_events_from : (events : List Event) (st : KbState) → IsKb st → IsKb (on_events events st)
unfolding on_events on_event
on_events_from [] st h = h
on_events_from (down l c code ∷ events) st h = on_events_from events _ (keydown-IsKb l c code st h)
on_events_from (up l c code ∷ events) st h = on_events_from events _ (keyup-IsKb l c code st h)

-- Whatever events come, the browser holds at most six keys, each once.
pub on_events-IsKb :
    (events : List Event) → IsKb (on_events events (record { modifiers = 0; keys = [] }))
on_events-IsKb events = on_events_from events _ (record { fits = omega arith; distinct = tt })

copy_keys_slots :
    (keys : List ℕ)
    → copy_keys (replicate 6 0) (take 6 (copy_keys (replicate 6 0) keys))
      ≡ copy_keys (replicate 6 0) keys
unfolding copy_keys
copy_keys_slots [] = refl
copy_keys_slots (a ∷ []) = refl
copy_keys_slots (a ∷ b ∷ []) = refl
copy_keys_slots (a ∷ b ∷ c ∷ []) = refl
copy_keys_slots (a ∷ b ∷ c ∷ d ∷ []) = refl
copy_keys_slots (a ∷ b ∷ c ∷ d ∷ e ∷ []) = refl
copy_keys_slots (a ∷ b ∷ c ∷ d ∷ e ∷ f ∷ keys) = refl

reported_keys :
    (now : ℕ) (h : Hid) (m : ℕ) (keys : List ℕ)
    → (keyboard_report now h m keys).0.keys_down
      ≡ record { modifier = m; keys = copy_keys (replicate 6 0) (take 6 keys) }
reported_keys = keyboard_report-keys_down

-- The frame that the browser sends for its keys makes them, at most six, in their order and padded with
-- zeros, the keys down on the `Hid` of the server, with the modifiers of the browser.
pub send_keyboard-dispatch :
    (now : ℕ) (s : Dispatcher) (h : Hid) (st : KbState) {frame : List ℕ}
    → s.hid ≡ some h
    → send_keyboard true st ≡ some frame
    → (h' : Hid) × (dispatch now false frame s ≡ some (record s { hid = some h' }))
      × (h'.keys_down.modifier ≡ st.modifiers)
      × (h'.keys_down.keys ≡ copy_keys (replicate 6 0) st.keys)
unfolding send_keyboard key_slots
send_keyboard-dispatch now s h st {frame} e f =
    let slots = copy_keys (replicate 6 0) st.keys in
    let d = dispatch-new_keyboard_report_message now s h st.modifiers slots e in
    let k = reported_keys now h st.modifiers slots in
    let c = copy_keys_slots st.keys in
    let m : marshal (new_keyboard_report_message st.modifiers slots) ≡ frame = cc in
    let (h', x) = keyboard_report now h st.modifiers slots in
    (
      h',
      subst (λ b. dispatch now false b s ≡ some (record s { hid = some h' })) m d,
      ap (λ (q : KeysDownState). q.modifier) k,
      ap (λ (q : KeysDownState). q.keys) k ∙ c,
    )

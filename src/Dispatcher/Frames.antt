-- ===== src/Dispatcher/Frames.antt =====
-- app/src/hidrpc/dispatcher.rs: what a frame from the browser does.
use rustkvm.Common.{
  ℕ, ◌≡◌, ◌≢◌, refl, ap, ◌∙◌, List, [], ◌∷◌, Bool, true, false, Option, none, some, arith, inl, inr,
}
use rustkvm.HidRpc.{MessageType, Message, Result, ok, err, panic, unmarshal, from_byte, marshal}
use rustkvm.HidRpc.Frame.{unmarshal_iff}
use rustkvm.HidRpc.Payload.{
  new_keyboard_report_message, keyboard_report, keypress_report, pointer_report, mouse_report,
}
use rustkvm.HidRpc.MacroReport.Total.{keyboard_macro_report_total}
use rustkvm.HidRpc.MacroReport.{keyboard_macro_report}
use rustkvm.Hid.Device.{Hid, Error, panicked, writer_terminated, path_not_found, open_failed}
use rustkvm.Hid.Device
use rustkvm.Hid.Sent.{
  keyboard_report_no_panic, keypress_report_no_panic, abs_mouse_report_no_panic,
  rel_mouse_report_no_panic,
}
use rustkvm.Dispatcher.{
  Dispatcher, dispatch, handle, on_message, on_reported, call_hid, with_hid, on_parsed,
}

Returns : Option Dispatcher → Type 0
Returns o = (s : Dispatcher) × (o ≡ some s)

marshal_read : (m : Message) → unmarshal (marshal m) ≡ ok m
marshal_read m = (unmarshal_iff (marshal m) m).1 refl

-- A result of `Hid` that is no panic.
on_reported_fine :
    (r : Hid × Option Error) (s : Dispatcher)
    → r.1 ≢ some panicked
    → on_reported r s ≡ some (record s { hid = some r.0 })
on_reported_fine (h, none) s fine = refl
on_reported_fine (h, some panicked) s fine = absurd (fine refl)
on_reported_fine (h, some writer_terminated) s fine = refl
on_reported_fine (h, some path_not_found) s fine = refl
on_reported_fine (h, some open_failed) s fine = refl

call_hid-Returns :
    (call : Hid → Hid × Option Error) (s : Dispatcher) (hid : Option Hid)
    → ((h : Hid) → (call h).1 ≢ some panicked)
    → Returns (call_hid call s hid)
unfolding Returns
call_hid-Returns call s none fine = (s, refl)
call_hid-Returns call s (some h) fine =
    (record s { hid = some (call h).0 }, on_reported_fine (call h) s (fine h))

with_hid-Returns :
    (call : Hid → Hid × Option Error) (s : Dispatcher)
    → ((h : Hid) → (call h).1 ≢ some panicked)
    → Returns (with_hid call s)
with_hid-Returns call s fine = call_hid-Returns call s s.hid fine

handle_keyboard :
    (now : ℕ) (s : Dispatcher) (h : Hid) (modifier : ℕ) (keys : List ℕ)
    → s.hid ≡ some h
    → handle now (new_keyboard_report_message modifier keys) s
      ≡ some (record s { hid = some (Device.keyboard_report now h modifier keys).0 })
unfolding handle keyboard_report new_keyboard_report_message
handle_keyboard now s h modifier keys e =
    ap (call_hid (λ h'. Device.keyboard_report now h' modifier keys) s) e
    ∙ on_reported_fine (Device.keyboard_report now h modifier keys) s
        (keyboard_report_no_panic now h modifier keys)

-- A keyboard report that the browser sends reaches the `Hid` there is as it was sent, and nothing else
-- changes.
pub dispatch-new_keyboard_report_message :
    (now : ℕ) (s : Dispatcher) (h : Hid) (modifier : ℕ) (keys : List ℕ)
    → s.hid ≡ some h
    → dispatch now false (marshal (new_keyboard_report_message modifier keys)) s
      ≡ some (record s { hid = some (Device.keyboard_report now h modifier keys).0 })
unfolding dispatch on_message
dispatch-new_keyboard_report_message now s h modifier keys e =
    rw (marshal_read (new_keyboard_report_message modifier keys))
      (handle_keyboard now s h modifier keys e)

on_parsed-Returns :
    {A : Type 0} (r : Result A) (f : A → Option Dispatcher) (s : Dispatcher)
    → r ≢ panic
    → ((a : A) → Returns (f a))
    → Returns (on_parsed r f s)
unfolding Returns
on_parsed-Returns (ok a) f s h k = k a
on_parsed-Returns (err e) f s h k = (s, refl)
on_parsed-Returns panic f s h k = absurd (h refl)

macro_returns : (m : Message) → keyboard_macro_report m ≢ panic
macro_returns m e = elim (keyboard_macro_report_total m) [
  | inl (r, h, _) ↦ ground arith
  | inr (x, h) ↦ ground arith
]

keyboard_returns :
    (p : List ℕ)
    → keyboard_report (record { type = MessageType.keyboard_report; payload = p }) ≢ panic
unfolding keyboard_report
keyboard_returns [] e = cc
keyboard_returns (a ∷ p) e = cc

keypress_returns :
    (p : List ℕ)
    → keypress_report (record { type = MessageType.keypress_report; payload = p }) ≢ panic
unfolding keypress_report
keypress_returns (a ∷ b ∷ p) e = cc
keypress_returns _ e = cc

pointer_returns :
    (p : List ℕ)
    → pointer_report (record { type = MessageType.pointer_report; payload = p }) ≢ panic
unfolding pointer_report
pointer_returns (a ∷ b ∷ c ∷ d ∷ e ∷ f ∷ g ∷ h ∷ i ∷ []) q = cc
pointer_returns _ q = cc

mouse_returns :
    (p : List ℕ) → mouse_report (record { type = MessageType.mouse_report; payload = p }) ≢ panic
unfolding mouse_report
mouse_returns (a ∷ b ∷ c ∷ p) e = cc
mouse_returns _ e = cc

handle-Returns :
    (now : ℕ) (t : MessageType) (p : List ℕ) (s : Dispatcher)
    → Returns (handle now (record { type = t; payload = p }) s)
unfolding handle Returns
handle-Returns now MessageType.keyboard_report p s =
    on_parsed-Returns _ _ s (keyboard_returns p) (λ r.
      with_hid-Returns (λ h. Device.keyboard_report now h r.modifier r.keys) s
        (λ h. keyboard_report_no_panic now h r.modifier r.keys))
handle-Returns now MessageType.keypress_report p s =
    on_parsed-Returns _ _ s (keypress_returns p) (λ r.
      with_hid-Returns (λ h. Device.keypress_report now h r.key r.press) s
        (λ h. keypress_report_no_panic now h r.key r.press))
handle-Returns now MessageType.pointer_report p s =
    on_parsed-Returns _ _ s (pointer_returns p) (λ r.
      with_hid-Returns (λ h. Device.abs_mouse_report now h r.x r.y r.button) s
        (λ h. abs_mouse_report_no_panic now h r.x r.y r.button))
handle-Returns now MessageType.mouse_report p s = on_parsed-Returns _ _ s (mouse_returns p) (λ r.
    with_hid-Returns (λ h. Device.rel_mouse_report now h r.dx r.dy r.button) s
      (λ h. rel_mouse_report_no_panic now h r.dx r.dy r.button))
handle-Returns now MessageType.keyboard_macro_report p s =
    on_parsed-Returns _ _ s (macro_returns _) (λ r. (_, refl))
handle-Returns now _ p s = (_, refl)

on_message-Returns :
    (now : ℕ) (r : Result Message) (s : Dispatcher) → r ≢ panic → Returns (on_message now r s)
unfolding on_message Returns
on_message-Returns now (ok m) s h = handle-Returns now m.type m.payload s
on_message-Returns now (err e) s h = (s, refl)
on_message-Returns now panic s h = absurd (h refl)

unmarshal_returns : (b : List ℕ) → unmarshal b ≢ panic
unfolding unmarshal from_byte
unmarshal_returns [] e = cc
unmarshal_returns (t ∷ p) e = ground arith

-- Whatever the bytes of a frame are, no index of its parse, of the key array that it changes and of the
-- report that it makes is out of range: the server does not panic there.
pub dispatch_total :
    (now : ℕ) (is_string : Bool) (frame : List ℕ) (s : Dispatcher)
    → (s' : Dispatcher) × (dispatch now is_string frame s ≡ some s')
unfolding dispatch Returns
dispatch_total now true frame s = (s, refl)
dispatch_total now false frame s =
    on_message-Returns now (unmarshal frame) s (unmarshal_returns frame)

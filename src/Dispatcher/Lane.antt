-- ===== src/Dispatcher/Lane.antt =====
-- app/src/hidrpc/dispatcher.rs: the steps of the tasks, one event at a time, and the cancelled macros.
use mathlib.Core.Path.{subst}
use rustkvm.Common.{
  ℕ, ◌≡◌, refl, List, [], Bool, true, false, not, ◌||◌, ◌&&◌, ◌==◌, Option, none, some, arith,
}
use rustkvm.HidRpc.{MessageType, Result, ok, err, panic, Message, unmarshal}
use rustkvm.HidRpc.MacroReport.{KeyboardMacroStep, KeyboardMacroReport, keyboard_macro_report}
use rustkvm.Hid.Device.{
  Hid, Error, keyboard_report, keypress_report, abs_mouse_report, rel_mouse_report,
}
use rustkvm.Dispatcher.{
  Dispatcher, Running, Task, Phase, starting, typing, reporting, delaying, is_cancelled,
  send_reliable, install_reliable_channel, begin_clear, end_clear, begin_cancel, end_cancel,
  start_macro, acquire, dispatch, handle, on_message, on_reported, call_hid, with_hid, on_parsed,
  send_end, leave,
}
use rustkvm.Dispatcher.Macro.{
  publish, recheck, announce, begin_macro, report_keys, check_token, type_step, delay_over,
  delay_cancelled, release_keys,
}

-- Whether a cancel of the task is between its two events.
abbrev pub cancel_pending : Dispatcher → Task → Bool
cancel_pending s t = not (s.cancels == 0) || (t.from_channel && s.clearing)

-- The token of a macro behind its second check is cancelled when its epochs say so, or a cancel of it is
-- pending.
unfoldable pub guarded : Dispatcher → Bool
guarded s = elim s.running [
  | none ↦ true
  | some r ↦
      let safe : Bool = not (is_cancelled s r.task) || r.cancelled || cancel_pending s r.task in
      elim r.phase [
        | Phase.announcing ↦ safe
        | starting ↦ safe
        | typing _ ↦ safe
        | reporting _ _ ↦ safe
        | delaying _ ↦ safe
        | _ ↦ true
      ]
]

begin_cancel-guarded : (s : Dispatcher) → guarded s ≡ true → guarded (begin_cancel s) ≡ true
unfolding guarded begin_cancel is_cancelled
begin_cancel-guarded s h = ground arith

end_cancel-guarded : (s : Dispatcher) → guarded s ≡ true → guarded (end_cancel s) ≡ true
unfolding guarded end_cancel is_cancelled
end_cancel-guarded s h = ground arith

begin_clear-guarded : (s : Dispatcher) → guarded s ≡ true → guarded (begin_clear s) ≡ true
unfolding guarded begin_clear is_cancelled
begin_clear-guarded s h = ground arith

end_clear-guarded : (s : Dispatcher) → guarded s ≡ true → guarded (end_clear s) ≡ true
unfolding guarded end_clear is_cancelled
end_clear-guarded s h = ground arith

publish-guarded : (s : Dispatcher) → guarded s ≡ true → guarded (publish s) ≡ true
unfolding guarded publish is_cancelled
publish-guarded s h = ground arith

recheck-guarded : (s : Dispatcher) → guarded s ≡ true → guarded (recheck s) ≡ true
unfolding guarded recheck is_cancelled
recheck-guarded s h = ground arith

announce-guarded : (s : Dispatcher) → guarded s ≡ true → guarded (announce s) ≡ true
unfolding guarded announce is_cancelled send_reliable
announce-guarded s h = ground arith

begin_macro-guarded : (s : Dispatcher) → guarded s ≡ true → guarded (begin_macro s) ≡ true
unfolding guarded begin_macro is_cancelled
begin_macro-guarded s h = ground arith

check_token-guarded : (s : Dispatcher) → guarded s ≡ true → guarded (check_token s) ≡ true
unfolding guarded check_token is_cancelled
check_token-guarded s h = ground arith

delay_over-guarded : (s : Dispatcher) → guarded s ≡ true → guarded (delay_over s) ≡ true
unfolding guarded delay_over is_cancelled
delay_over-guarded s h = ground arith

delay_cancelled-guarded : (s : Dispatcher) → guarded s ≡ true → guarded (delay_cancelled s) ≡ true
unfolding guarded delay_cancelled is_cancelled
delay_cancelled-guarded s h = ground arith

send_end-guarded : (s : Dispatcher) → guarded s ≡ true → guarded (send_end s) ≡ true
unfolding guarded send_end is_cancelled send_reliable
send_end-guarded s h = ground arith

leave-guarded : (s : Dispatcher) → guarded s ≡ true → guarded (leave s) ≡ true
unfolding guarded leave is_cancelled
leave-guarded s h = ground arith

acquire-guarded : (i : ℕ) (s : Dispatcher) → guarded s ≡ true → guarded (acquire i s) ≡ true
unfolding guarded acquire is_cancelled
acquire-guarded i s h = ground arith

type_Step-guarded : (now : ℕ) (s : Dispatcher) → guarded s ≡ true → guarded (type_step now s) ≡ true
unfolding guarded type_step is_cancelled report_keys
type_Step-guarded now s h = ground arith

release_keys-guarded :
    (now : ℕ) (s : Dispatcher) → guarded s ≡ true → guarded (release_keys now s) ≡ true
unfolding guarded release_keys is_cancelled report_keys
release_keys-guarded now s h = ground arith

send-guarded :
    (payload : List ℕ) (s : Dispatcher)
    → guarded s ≡ true
    → guarded (send_reliable payload s) ≡ true
unfolding guarded send_reliable is_cancelled
send-guarded payload s h = ground arith

start_macro-guarded :
    (is_paste : Bool) (steps : List KeyboardMacroStep) (from_channel : Bool) (s : Dispatcher)
    → guarded s ≡ true
    → guarded (start_macro is_paste steps from_channel s) ≡ true
unfolding guarded start_macro is_cancelled
start_macro-guarded is_paste steps from_channel s h = h

abbrev IsGuarded : Option Dispatcher → Type 0
IsGuarded none = Unit
IsGuarded (some s) = guarded s ≡ true

on_reported-IsGuarded :
    (r : Hid × Option Error) (s : Dispatcher) → guarded s ≡ true → IsGuarded (on_reported r s)
unfolding guarded is_cancelled
on_reported-IsGuarded (h', none) s h = h
on_reported-IsGuarded (h', some Error.panicked) s h = tt
on_reported-IsGuarded (h', some Error.writer_terminated) s h = h
on_reported-IsGuarded (h', some Error.path_not_found) s h = h
on_reported-IsGuarded (h', some Error.open_failed) s h = h

call_hid-IsGuarded :
    (call : Hid → Hid × Option Error) (s : Dispatcher) (hid : Option Hid)
    → guarded s ≡ true
    → IsGuarded (call_hid call s hid)
call_hid-IsGuarded call s none h = h
call_hid-IsGuarded call s (some device) h = on_reported-IsGuarded (call device) s h

with_hid-IsGuarded :
    (call : Hid → Hid × Option Error) (s : Dispatcher)
    → guarded s ≡ true
    → IsGuarded (with_hid call s)
with_hid-IsGuarded call s h = call_hid-IsGuarded call s s.hid h

on_parsed-IsGuarded :
    {A : Type 0} (r : Result A) (f : A → Option Dispatcher) (s : Dispatcher)
    → ((a : A) → IsGuarded (f a))
    → guarded s ≡ true
    → IsGuarded (on_parsed r f s)
on_parsed-IsGuarded (ok a) f s k h = k a
on_parsed-IsGuarded (err e) f s k h = h
on_parsed-IsGuarded panic f s k h = tt

handle-IsGuarded :
    (now : ℕ) (t : MessageType) (payload : List ℕ) (s : Dispatcher)
    → guarded s ≡ true
    → IsGuarded (handle now (record { type = t; payload = payload }) s)
unfolding handle
handle-IsGuarded now MessageType.handshake payload s h = send-guarded _ s h
handle-IsGuarded now MessageType.keyboard_report payload s h =
    on_parsed-IsGuarded _ _ s
      (λ r. with_hid-IsGuarded (λ h'. keyboard_report now h' r.modifier r.keys) s h) h
handle-IsGuarded now MessageType.keypress_report payload s h =
    on_parsed-IsGuarded _ _ s
      (λ r. with_hid-IsGuarded (λ h'. keypress_report now h' r.key r.press) s h) h
handle-IsGuarded now MessageType.pointer_report payload s h =
    on_parsed-IsGuarded _ _ s
      (λ r. with_hid-IsGuarded (λ h'. abs_mouse_report now h' r.x r.y r.button) s h) h
handle-IsGuarded now MessageType.mouse_report payload s h =
    on_parsed-IsGuarded _ _ s
      (λ r. with_hid-IsGuarded (λ h'. rel_mouse_report now h' r.dx r.dy r.button) s h) h
handle-IsGuarded now MessageType.keyboard_macro_report payload s h =
    on_parsed-IsGuarded
      (keyboard_macro_report
        (record { type = MessageType.keyboard_macro_report; payload = payload }))
      (λ (r : KeyboardMacroReport). some (start_macro r.is_paste r.steps true s)) s
      (λ r. start_macro-guarded r.is_paste r.steps true s h) h
handle-IsGuarded now MessageType.cancel_keyboard_macro_report payload s h = begin_cancel-guarded s h
handle-IsGuarded now MessageType.wheel_report payload s h = h
handle-IsGuarded now MessageType.keypress_keep_alive_report payload s h = h
handle-IsGuarded now MessageType.keyboard_led_state payload s h = h
handle-IsGuarded now MessageType.keydown_state payload s h = h
handle-IsGuarded now MessageType.keyboard_macro_state payload s h = h

on_message-IsGuarded :
    (now : ℕ) (r : Result Message) (s : Dispatcher)
    → guarded s ≡ true
    → IsGuarded (on_message now r s)
unfolding on_message
on_message-IsGuarded now (ok m) s h = handle-IsGuarded now m.type m.payload s h
on_message-IsGuarded now (err e) s h = h
on_message-IsGuarded now panic s h = tt

dispatch-IsGuarded :
    (now : ℕ) (is_string : Bool) (frame : List ℕ) (s : Dispatcher)
    → guarded s ≡ true
    → IsGuarded (dispatch now is_string frame s)
unfolding dispatch
dispatch-IsGuarded now true frame s h = h
dispatch-IsGuarded now false frame s h = on_message-IsGuarded now (unmarshal frame) s h

-- The events of the program that touch the dispatcher, each on any thread at any time; a publication and a
-- clear wait for the lock that a clear holds.
pub data Step : Dispatcher → Dispatcher → Type 0 where
  installing : (s : Dispatcher) → Step s (install_reliable_channel s)
  clear_begins : (s : Dispatcher) → s.clearing ≡ false → Step s (begin_clear s)
  clear_ends : (s : Dispatcher) → Step s (end_clear s)
  cancel_begins : (s : Dispatcher) → Step s (begin_cancel s)
  cancel_ends : (s : Dispatcher) → Step s (end_cancel s)
  playing :
      (s : Dispatcher) (is_paste : Bool) (steps : List KeyboardMacroStep)
      → Step s (start_macro is_paste steps false s)
  receiving :
      {s s' : Dispatcher} (now : ℕ) (is_string : Bool) (frame : List ℕ)
      → dispatch now is_string frame s ≡ some s'
      → Step s s'
  acquiring : (s : Dispatcher) (i : ℕ) → Step s (acquire i s)
  publishing : (s : Dispatcher) → s.clearing ≡ false → Step s (publish s)
  rechecking : (s : Dispatcher) → Step s (recheck s)
  announcing : (s : Dispatcher) → Step s (announce s)
  beginning : (s : Dispatcher) → Step s (begin_macro s)
  checking : (s : Dispatcher) → Step s (check_token s)
  stepping : (s : Dispatcher) (now : ℕ) → Step s (type_step now s)
  delayed : (s : Dispatcher) → Step s (delay_over s)
  delay_ends : (s : Dispatcher) → Step s (delay_cancelled s)
  releasing : (s : Dispatcher) (now : ℕ) → Step s (release_keys now s)
  sending : (s : Dispatcher) → Step s (send_end s)
  left : (s : Dispatcher) → Step s (leave s)

-- The states that the program reaches from its start.
pub data Reaches : Dispatcher → Type 0 where
  start :
      (h : Option Hid)
      → Reaches (record {
        hid = h;
        reliable_channel = false;
        cancel_all_epoch = 0;
        channel_epoch = 0;
        waiting = [];
        running = none;
        sent = [];
        completed = 0;
        cancels = 0;
        clearing = false;
      })
  next : {s s' : Dispatcher} → Reaches s → Step s s' → Reaches s'

Step-guarded : (s s' : Dispatcher) → guarded s ≡ true → Step s s' → guarded s' ≡ true
unfolding guarded install_reliable_channel is_cancelled
Step-guarded s _ h (installing _) = h
Step-guarded s _ h (clear_begins _ e) = begin_clear-guarded s h
Step-guarded s _ h (clear_ends _) = end_clear-guarded s h
Step-guarded s _ h (cancel_begins _) = begin_cancel-guarded s h
Step-guarded s _ h (cancel_ends _) = end_cancel-guarded s h
Step-guarded s _ h (playing _ p steps) = start_macro-guarded p steps false s h
Step-guarded s s' h (receiving now is_string frame e) =
    subst IsGuarded e (dispatch-IsGuarded now is_string frame s h)
Step-guarded s _ h (acquiring _ i) = acquire-guarded i s h
Step-guarded s _ h (publishing _ e) = publish-guarded s h
Step-guarded s _ h (rechecking _) = recheck-guarded s h
Step-guarded s _ h (announcing _) = announce-guarded s h
Step-guarded s _ h (beginning _) = begin_macro-guarded s h
Step-guarded s _ h (checking _) = check_token-guarded s h
Step-guarded s _ h (stepping _ now) = type_Step-guarded now s h
Step-guarded s _ h (delayed _) = delay_over-guarded s h
Step-guarded s _ h (delay_ends _) = delay_cancelled-guarded s h
Step-guarded s _ h (releasing _ now) = release_keys-guarded now s h
Step-guarded s _ h (sending _) = send_end-guarded s h
Step-guarded s _ h (left _) = leave-guarded s h

Reaches-guarded : (s : Dispatcher) → Reaches s → guarded s ≡ true
unfolding guarded
Reaches-guarded _ (start h) = refl
Reaches-guarded s (next {s = s0} r st) = Step-guarded s0 s (Reaches-guarded s0 r) st

-- Whether the task has passed a check and not yet done what the check was for.
abbrev pub past_check : Phase → Bool
past_check Phase.announcing = true
past_check (reporting _ _) = true
past_check _ = false

-- In every state that the steps reach, a macro whose epochs say that it was cancelled, of which no cancel
-- is between its two events, and which has not passed a check whose report or send is still to come: its next
-- check of the token leads to no report of a step, and its second check of the epochs to no send of the
-- beginning. (A report or a send whose check was passed before the cancel still follows.)
pub cancelled_types_nothing :
    (now : ℕ) (s : Dispatcher) (r : Running)
    → Reaches s
    → s.running ≡ some r
    → is_cancelled s r.task ≡ true
    → cancel_pending s r.task ≡ false
    → past_check r.phase ≡ false
    → ((type_step now (check_token s)).hid ≡ s.hid) × ((announce (recheck s)).sent ≡ s.sent)
unfolding type_step check_token recheck announce guarded
cancelled_types_nothing now s r reach e c pending unchecked =
    let g = Reaches-guarded s reach in (ground arith, ground arith)

-- ===== src/Dispatcher/Runs.antt =====
-- Concrete frames and macros.
use rustkvm.Common.{◌≡◌, refl, List, [], ◌∷◌, Bool, true, false, none, some}
use rustkvm.HidRpc.MacroReport.{KeyboardMacroStep}
use rustkvm.Hid.Device.{Hid, new}
use rustkvm.Dispatcher.{
  Dispatcher, Task, Phase, Running, typing, is_cancelled, begin_cancel, end_cancel, start_macro,
  acquire, take_at, dispatch, send_reliable, send_end, leave,
}
use rustkvm.Dispatcher.Macro.{publish, recheck, announce, begin_macro, check_token, type_step}
use rustkvm.Dispatcher.Lane.{
  Step, Reaches, start, next, playing, acquiring, publishing, rechecking, beginning, cancel_begins,
  cancel_ends, cancelled_types_nothing,
}
use rustkvm.Dispatcher.Release.{keys_of, round, cancelled_between_steps}
use rustkvm.Dispatcher.Frames.{dispatch_total}

abbrev device : Hid
device = new 0

abbrev idle : Dispatcher
idle = record {
  hid = some device;
  reliable_channel = false;
  cancel_all_epoch = 0;
  channel_epoch = 0;
  waiting = [];
  running = none;
  sent = [];
  completed = 0;
  cancels = 0;
  clearing = false;
}

abbrev press_a : KeyboardMacroStep
press_a = record { modifier = 0; keys = 4 ∷ 0 ∷ 0 ∷ 0 ∷ 0 ∷ 0 ∷ []; delay = 10 }

abbrev one_step : List KeyboardMacroStep
one_step = press_a ∷ []

abbrev two_steps : List KeyboardMacroStep
two_steps = press_a ∷ press_a ∷ []

abbrev task : Task
task = record {
  is_paste = false;
  steps = one_step;
  from_channel = false;
  epoch_all = 0;
  epoch_channel = 0;
}

abbrev in_phase : Phase → Bool → Dispatcher
in_phase p cancelled = record idle {
  running = some (record { task = task; phase = p; cancelled = cancelled });
}

dispatch_total_example : (s' : Dispatcher) × (dispatch 5 false (7 ∷ 1 ∷ 2 ∷ []) idle ≡ some s')
dispatch_total_example = dispatch_total 5 false (7 ∷ 1 ∷ 2 ∷ []) idle

-- A macro that types `press_a` as often as the steps say, without a cancel so far.
abbrev running : List KeyboardMacroStep → Running
running steps = record { task = task; phase = typing steps; cancelled = false }

cancelled_between_steps_example :
    let s' = leave (
      send_end
        (check_token (end_cancel (begin_cancel (round 5 (in_phase (typing two_steps) false)))))) in
    (s'.running ≡ none)
    × (s'.completed ≡ 0)
    × ((h' : Hid) × (s'.hid ≡ some h') × (h'.keys_down ≡ keys_of press_a))
unfolding new
cancelled_between_steps_example =
    cancelled_between_steps 5 (in_phase (typing two_steps) false) device (running two_steps) press_a
      press_a [] refl refl refl refl

abbrev cancelled_while_typing : Dispatcher
cancelled_while_typing = end_cancel (
    begin_cancel (
      begin_macro
        (announce (recheck (publish (acquire 0 (start_macro false one_step false idle)))))))

cancelled_while_typing-Reaches : Reaches cancelled_while_typing
unfolding acquire start_macro take_at is_cancelled
cancelled_while_typing-Reaches =
    let taken = next (next (start (some device)) (playing _ false one_step)) (acquiring _ 0) in
    let checked = next (next taken (publishing _ refl)) (rechecking _) in
    let typed = next (next checked (Step.announcing _)) (beginning _) in
    next (next typed (cancel_begins _)) (cancel_ends _)

cancelled_types_nothing_example :
    ((type_step 5 (check_token cancelled_while_typing)).hid ≡ cancelled_while_typing.hid)
    × ((announce (recheck cancelled_while_typing)).sent ≡ cancelled_while_typing.sent)
unfolding begin_cancel end_cancel recheck publish announce begin_macro acquire start_macro take_at
    is_cancelled send_reliable
cancelled_types_nothing_example =
    cancelled_types_nothing 5 cancelled_while_typing
      (record { task = task; phase = typing one_step; cancelled = true })
      cancelled_while_typing-Reaches refl refl refl refl

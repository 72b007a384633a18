-- ===== src/Dispatcher.antt =====
-- app/src/hidrpc/dispatcher.rs: the frames that arrive on the data channel, and the lane on which macros are
-- typed one after another. Threads run at once, so each function is one event: a load or a store that other
-- threads see, or a section under one lock. A macro's task goes through `acquire`, the events of
-- Dispatcher/Macro, and `leave`; `cancel_macro` and `clear_reliable_channel` are two events each. The two
-- loads of a check of the epochs are one event: it is that of the load that decides.
pub mod Frames
pub mod Lane
pub mod Macro
pub mod Release
mod Runs
use rustkvm.Common.{
  ℕ, zero, suc, ◌+◌, ◌-◌, ◌%◌, List, [], ◌∷◌, ◌++◌, Bool, true, false, not, ◌&&◌, ◌||◌,
  if◌then◌else◌, ◌==◌, replicate, Option, none, some,
}
use rustkvm.HidRpc.{MessageType, Message, Result, ok, err, panic, unmarshal, marshal}
use rustkvm.HidRpc.Payload.{new_handshake_message, new_keyboard_macro_state_message}
use rustkvm.HidRpc.Payload
use rustkvm.HidRpc.MacroReport.{
  KeyboardMacroStep, KeyboardMacroReport, keyboard_macro_report, hid_key_buffer_size,
}
use rustkvm.Hid.Device.{
  Hid, Error, panicked, writer_terminated, path_not_found, open_failed, keyboard_report,
  keypress_report, abs_mouse_report, rel_mouse_report,
}

-- A macro between `start_macro` and its end, with the epochs that its `cancelled` compares.
pub record Task : Type 0 where
  pub is_paste : Bool
  pub steps : List KeyboardMacroStep
  pub from_channel : Bool
  pub epoch_all : ℕ
  pub epoch_channel : ℕ

-- Where the task that holds the lane is: behind its first check; behind the publication of its token; behind
-- its second check; behind the send of `begin`; before the steps that are left; behind the check of the
-- token, with the step to report; in the delay behind a report; in the cancelled delay; behind `run_macro`;
-- and behind the send of `end`.
pub data Phase : Type 0 where
  acquired : Phase
  published : Phase
  announcing : Phase
  starting : Phase
  typing : List KeyboardMacroStep → Phase
  reporting : KeyboardMacroStep → List KeyboardMacroStep → Phase
  delaying : List KeyboardMacroStep → Phase
  releasing : Phase
  ending : Bool → Phase
  leaving : Bool → Phase

-- `cancelled` is the state of the task's token.
pub record Running : Type 0 where
  pub task : Task
  pub phase : Phase
  pub cancelled : Bool

-- The statics of the module. `sent` are the frames handed to the reliable channel; a failed send is only
-- logged. `running` is the holder of the lane, and `completed` counts the macros that ran to their end.
-- `cancels` counts the calls of `cancel_macro` between their two events; `clearing` is that one of
-- `clear_reliable_channel` is, which holds the lock of the statics.
pub record Dispatcher : Type 0 where
  pub hid : Option Hid
  pub reliable_channel : Bool
  pub cancel_all_epoch : ℕ
  pub channel_epoch : ℕ
  pub waiting : List Task
  pub running : Option Running
  pub sent : List (List ℕ)
  pub completed : ℕ
  pub cancels : ℕ
  pub clearing : Bool

-- `fetch_add(1)` on an `AtomicU64`.
abbrev pub next_epoch : ℕ → ℕ
next_epoch epoch = (epoch + 1) % 18446744073709551616

-- `CancellationToken::cancel` for the token in `running_macro`, which is there from its publication on.
abbrev pub cancel_token : Running → Running
cancel_token r = elim r.phase [ acquired ↦ r | _ ↦ record r { cancelled = true } ]

abbrev pub cancel_running : Option Running → Option Running
cancel_running none = none
cancel_running (some r) = some (cancel_token r)

abbrev pub cancel_channel_macro : Option Running → Option Running
cancel_channel_macro none = none
cancel_channel_macro (some r) = some (if r.task.from_channel then cancel_token r else r)

unfoldable pub install_reliable_channel : Dispatcher → Dispatcher
install_reliable_channel s = record s { reliable_channel = true }

-- `clear_reliable_channel` up to the `fetch_add`, and behind it.
unfoldable pub begin_clear : Dispatcher → Dispatcher
begin_clear s = record s {
  reliable_channel = false;
  channel_epoch = next_epoch s.channel_epoch;
  clearing = true;
}

unfoldable pub end_clear : Dispatcher → Dispatcher
end_clear s =
    if s.clearing
    then record s { running = cancel_channel_macro s.running; clearing = false }
    else s

-- The `fetch_add` of `cancel_macro`, and what follows under the lock.
unfoldable pub begin_cancel : Dispatcher → Dispatcher
begin_cancel s = record s {
  cancel_all_epoch = next_epoch s.cancel_all_epoch;
  cancels = s.cancels + 1;
}

unfoldable pub end_cancel : Dispatcher → Dispatcher
end_cancel s =
    if s.cancels == 0
    then s
    else record s { running = cancel_running s.running; cancels = s.cancels - 1 }

unfoldable pub send_reliable : List ℕ → Dispatcher → Dispatcher
send_reliable payload s =
    if s.reliable_channel then record s { sent = s.sent ++ (payload ∷ []) } else s

-- `start_macro` up to the lock of the lane.
unfoldable pub start_macro : Bool → List KeyboardMacroStep → Bool → Dispatcher → Dispatcher
start_macro is_paste steps from_channel s =
    let task : Task = record {
      is_paste = is_paste;
      steps = steps;
      from_channel = from_channel;
      epoch_all = s.cancel_all_epoch;
      epoch_channel = s.channel_epoch;
    } in
    record s { waiting = s.waiting ++ (task ∷ []) }

-- The closure `cancelled`.
unfoldable pub is_cancelled : Dispatcher → Task → Bool
is_cancelled s t =
    not (s.cancel_all_epoch == t.epoch_all)
    || (t.from_channel && not (s.channel_epoch == t.epoch_channel))

-- The lane goes to a task that waits for it, whichever.
unfoldable pub take_at : ℕ → List Task → Option (Task × List Task)
take_at i [] = none
take_at zero (t ∷ tasks) = some (t, tasks)
take_at (suc i) (t ∷ tasks) = elim (take_at i tasks) [
  | none ↦ none
  | some (u, rest) ↦ some (u, t ∷ rest)
]

-- The lane is locked, and `cancelled` is tested for the first time.
unfoldable pub acquire : ℕ → Dispatcher → Dispatcher
unfolding is_cancelled take_at
acquire i s = elim s.running [
  | some _ ↦ s
  | none ↦ elim (take_at i s.waiting) [
    | none ↦ s
    | some (t, rest) ↦ if is_cancelled s t then record s { waiting = rest } else record s {
      waiting = rest;
      running = some (record { task = t; phase = acquired; cancelled = false });
    }
  ]
]

-- The send of `end`.
unfoldable pub send_end : Dispatcher → Dispatcher
unfolding send_reliable
send_end s = elim s.running [
  | none ↦ s
  | some r ↦ elim r.phase [
    | ending done ↦
        let t =
          send_reliable (marshal (new_keyboard_macro_state_message false r.task.is_paste)) s in
        record t { running = some (record r { phase = leaving done }) }
    | _ ↦ s
  ]
]

-- `running_macro = None`, and the end of the task, which gives up the lane.
unfoldable pub leave : Dispatcher → Dispatcher
leave s = elim s.running [
  | none ↦ s
  | some r ↦ elim r.phase [
    | leaving done ↦ record s {
      running = none;
      completed = if done then s.completed + 1 else s.completed;
    }
    | _ ↦ s
  ]
]

-- What an arm of `dispatch` does with the result of `Hid`: an error is logged, a panic is a panic.
abbrev pub on_reported : Hid × Option Error → Dispatcher → Option Dispatcher
on_reported (h, none) s = some (record s { hid = some h })
on_reported (h, some panicked) s = none
on_reported (h, some writer_terminated) s = some (record s { hid = some h })
on_reported (h, some path_not_found) s = some (record s { hid = some h })
on_reported (h, some open_failed) s = some (record s { hid = some h })

-- The arms of `dispatch` that call `Hid`; without a `Hid` nothing happens.
abbrev pub call_hid : (Hid → Hid × Option Error) → Dispatcher → Option Hid → Option Dispatcher
call_hid call s none = some s
call_hid call s (some h) = on_reported (call h) s

abbrev pub with_hid : (Hid → Hid × Option Error) → Dispatcher → Option Dispatcher
with_hid call s = call_hid call s s.hid

-- A parsed payload goes on, an error is logged, and a panic is a panic.
abbrev pub on_parsed {ℓ} :
    {A : Type ℓ} → Result A → (A → Option Dispatcher) → Dispatcher → Option Dispatcher
on_parsed (ok r) handle s = handle r
on_parsed (err e) handle s = some s
on_parsed panic handle s = none

unfoldable pub handle : ℕ → Message → Dispatcher → Option Dispatcher
unfolding send_reliable start_macro begin_cancel
handle now m s = elim m.type [
  | MessageType.handshake ↦ some (send_reliable (marshal new_handshake_message) s)
  | MessageType.keyboard_report ↦
      on_parsed (Payload.keyboard_report m)
        (λ r. with_hid (λ h. keyboard_report now h r.modifier r.keys) s) s
  | MessageType.keypress_report ↦
      on_parsed (Payload.keypress_report m)
        (λ r. with_hid (λ h. keypress_report now h r.key r.press) s) s
  | MessageType.pointer_report ↦
      on_parsed (Payload.pointer_report m)
        (λ r. with_hid (λ h. abs_mouse_report now h r.x r.y r.button) s) s
  | MessageType.mouse_report ↦
      on_parsed (Payload.mouse_report m)
        (λ r. with_hid (λ h. rel_mouse_report now h r.dx r.dy r.button) s) s
  | MessageType.keyboard_macro_report ↦
      on_parsed (keyboard_macro_report m) (λ r. some (start_macro r.is_paste r.steps true s)) s
  | MessageType.cancel_keyboard_macro_report ↦ some (begin_cancel s)
  | _ ↦ some s
]

-- `dispatch` behind `unmarshal`.
unfoldable pub on_message : ℕ → Result Message → Dispatcher → Option Dispatcher
on_message now (ok m) s = handle now m s
on_message now (err e) s = some s
on_message now panic s = none

-- `dispatch`, up to the second event of a cancel. `none` is a panic.
unfoldable pub dispatch : ℕ → Bool → List ℕ → Dispatcher → Option Dispatcher
unfolding handle on_message
dispatch now is_string frame s = if is_string then some s else on_message now (unmarshal frame) s

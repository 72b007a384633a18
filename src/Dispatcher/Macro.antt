-- ===== src/Dispatcher/Macro.antt =====
-- app/src/hidrpc/dispatcher.rs: the task of a macro once it has the lane.
use rustkvm.Common.{ℕ, List, [], ◌∷◌, Bool, true, false, if◌then◌else◌, replicate, none, some}
use rustkvm.HidRpc.{marshal}
use rustkvm.HidRpc.Payload.{new_keyboard_macro_state_message}
use rustkvm.HidRpc.MacroReport.{hid_key_buffer_size}
use rustkvm.Hid.Device.{keyboard_report}
use rustkvm.Dispatcher.{
  Dispatcher, Phase, acquired, published, announcing, starting, typing, reporting, delaying,
  releasing, ending, leaving, is_cancelled, send_reliable,
}

-- `running_macro = Some((token.clone(), from_channel))`, with a fresh token.
unfoldable pub publish : Dispatcher → Dispatcher
publish s = elim s.running [
  | none ↦ s
  | some r ↦ elim r.phase [
    | acquired ↦ record s { running = some (record r { phase = published; cancelled = false }) }
    | _ ↦ s
  ]
]

-- The second test of `cancelled`.
unfoldable pub recheck : Dispatcher → Dispatcher
unfolding is_cancelled
recheck s = elim s.running [
  | none ↦ s
  | some r ↦ elim r.phase [
    | published ↦
        let next : Phase = if is_cancelled s r.task then leaving false else announcing in
        record s { running = some (record r { phase = next }) }
    | _ ↦ s
  ]
]

-- The send of `begin`.
unfoldable pub announce : Dispatcher → Dispatcher
unfolding send_reliable
announce s = elim s.running [
  | none ↦ s
  | some r ↦ elim r.phase [
    | announcing ↦
        let t = send_reliable (marshal (new_keyboard_macro_state_message true r.task.is_paste)) s in
        record t { running = some (record r { phase = starting }) }
    | _ ↦ s
  ]
]

-- `run_macro` gives up at once without a `Hid`.
unfoldable pub begin_macro : Dispatcher → Dispatcher
begin_macro s = elim s.running [
  | none ↦ s
  | some r ↦ elim r.phase [
    | starting ↦
        let next : Phase = elim s.hid [ none ↦ ending false | some _ ↦ typing r.task.steps ] in
        record s { running = some (record r { phase = next }) }
    | _ ↦ s
  ]
]

-- What `keyboard_report` leaves: the state of `Hid`, and whether it was an error. (A report never panics.)
unfoldable pub report_keys : ℕ → ℕ → List ℕ → Dispatcher → Dispatcher × Bool
report_keys now modifier keys s = elim s.hid [
  | none ↦ (s, false)
  | some h ↦
      let (h', e) = keyboard_report now h modifier keys in
      (record s { hid = some h' }, elim e [ none ↦ true | some _ ↦ false ])
]

-- The head of the loop of `run_macro`: no step is left, or the token is checked.
unfoldable pub check_token : Dispatcher → Dispatcher
check_token s = elim s.running [
  | none ↦ s
  | some r ↦ elim r.phase [
    | typing steps ↦
        let next : Phase = elim steps [
          | [] ↦ ending true
          | step ∷ rest ↦ if r.cancelled then ending false else reporting step rest
        ] in
        record s { running = some (record r { phase = next }) }
    | _ ↦ s
  ]
]

-- The report of a step.
unfoldable pub type_step : ℕ → Dispatcher → Dispatcher
unfolding report_keys
type_step now s = elim s.running [
  | none ↦ s
  | some r ↦ elim r.phase [
    | reporting step rest ↦
        let (s', done) = report_keys now step.modifier step.keys s in
        record s' {
          running = some (record r { phase = if done then delaying rest else ending false });
        }
    | _ ↦ s
  ]
]

-- `select!` takes the branch of the delay: it has run out.
unfoldable pub delay_over : Dispatcher → Dispatcher
delay_over s = elim s.running [
  | none ↦ s
  | some r ↦ elim r.phase [
    | delaying rest ↦ record s { running = some (record r { phase = typing rest }) }
    | _ ↦ s
  ]
]

-- `select!` takes the branch of the token, when it is cancelled.
unfoldable pub delay_cancelled : Dispatcher → Dispatcher
delay_cancelled s = elim s.running [
  | none ↦ s
  | some r ↦ elim r.phase [
    | delaying rest ↦
        if r.cancelled then record s { running = some (record r { phase = releasing }) } else s
    | _ ↦ s
  ]
]

-- And releases the keys.
unfoldable pub release_keys : ℕ → Dispatcher → Dispatcher
unfolding report_keys
release_keys now s = elim s.running [
  | none ↦ s
  | some r ↦ elim r.phase [
    | releasing ↦
        let t = (report_keys now 0 (replicate hid_key_buffer_size 0) s).0 in
        record t { running = some (record r { phase = ending false }) }
    | _ ↦ s
  ]
]

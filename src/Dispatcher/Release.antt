-- ===== src/Dispatcher/Release.antt =====
-- app/src/hidrpc/dispatcher.rs: how macros end.
use mathlib.Core.Path.{subst}
use rustkvm.Common.{
  ℕ, ◌+◌, ◌≡◌, refl, sym, List, [], ◌∷◌, true, false, none, some, arith, replicate, take, ◌==◌,
}
use rustkvm.HidRpc.MacroReport.{KeyboardMacroStep}
use rustkvm.Hid.Keys.{KeysDownState, no_keys_down}
use rustkvm.Hid.Device.{Hid, keyboard_report, copy_keys}
use rustkvm.Hid.Sent.{keyboard_report-keys_down, keyboard_report-alive}
use rustkvm.Dispatcher.{
  Dispatcher, Running, Task, typing, delaying, ending, is_cancelled, send_reliable, begin_clear,
  end_clear, begin_cancel, end_cancel, send_end, leave,
}
use rustkvm.Dispatcher.Macro.{
  report_keys, check_token, type_step, delay_over, delay_cancelled, release_keys,
}

released :
    (now : ℕ) (h : Hid) → (keyboard_report now h 0 (replicate 6 0)).0.keys_down ≡ no_keys_down
unfolding copy_keys
released now h = keyboard_report-keys_down now h 0 (replicate 6 0)

-- With a `Hid`, a macro that is cancelled in a delay leaves no key and no modifier down, and goes on to its
-- end.
pub delay_cancelled_releases :
    (now : ℕ) (s : Dispatcher) (h : Hid) (r : Running) (rest : List KeyboardMacroStep)
    → s.hid ≡ some h
    → s.running ≡ some r
    → r.phase ≡ delaying rest
    → r.cancelled ≡ true
    → let s' = release_keys now (delay_cancelled s) in
      (s'.running ≡ some (record r { phase = ending false }))
      × ((h' : Hid) × (s'.hid ≡ some h') × (h'.keys_down ≡ no_keys_down))
unfolding delay_cancelled release_keys report_keys
delay_cancelled_releases now s h r rest a b c d =
    (ground arith, ((keyboard_report now h 0 (replicate 6 0)).0, ground arith, released now h))

-- When the channel closes, a macro that did not come from it is no more cancelled than before.
pub clear_reliable_channel_spares :
    (s : Dispatcher) (t : Task)
    → t.from_channel ≡ false
    → is_cancelled (end_clear (begin_clear s)) t ≡ is_cancelled s t
unfolding begin_clear end_clear is_cancelled
clear_reliable_channel_spares s t h = ground arith

-- A `Hid` whose writer thread lives takes every report, if only to drop it.
reported :
    (now : ℕ) (h : Hid) (modifier : ℕ) (keys : List ℕ)
    → h.writer_alive ≡ true
    → ((keyboard_report now h modifier keys).1 ≡ none)
      × ((keyboard_report now h modifier keys).0.writer_alive ≡ true)
reported = keyboard_report-alive

-- The keys that a report leaves down: of the keys at most six, the other slots are 0.
abbrev pub keys_of : KeyboardMacroStep → KeysDownState
keys_of step = record {
  modifier = step.modifier;
  keys = copy_keys (replicate 6 0) (take 6 step.keys);
}

reported-keys_down :
    (now : ℕ) (h : Hid) (step : KeyboardMacroStep)
    → (keyboard_report now h step.modifier step.keys).0.keys_down ≡ keys_of step
reported-keys_down now h step = keyboard_report-keys_down now h step.modifier step.keys

-- One round of a macro's loop without a cancel: the check, the report and the whole delay.
abbrev pub round : ℕ → Dispatcher → Dispatcher
round now s = delay_over (type_step now (check_token s))

-- The rounds of a macro, and its end.
abbrev pub type_steps : List KeyboardMacroStep → ℕ → Dispatcher → Dispatcher
type_steps [] now s = leave (send_end (check_token s))
type_steps (step ∷ rest) now s = type_steps rest (now + step.delay) (round now s)

-- The reports of all the steps to a `Hid`, each when the delays of those before it are over.
abbrev pub report_all : List KeyboardMacroStep → ℕ → Hid → Hid
report_all [] now h = h
report_all (step ∷ rest) now h =
    report_all rest (now + step.delay) (keyboard_report now h step.modifier step.keys).0

one_round :
    (now : ℕ) (s : Dispatcher) (h : Hid) (r : Running) (step : KeyboardMacroStep)
    (rest : List KeyboardMacroStep)
    → s.hid ≡ some h
    → s.running ≡ some (record r { phase = typing (step ∷ rest) })
    → r.cancelled ≡ false
    → h.writer_alive ≡ true
    → round now s ≡ record s {
      hid = some (keyboard_report now h step.modifier step.keys).0;
      running = some (record r { phase = typing rest });
    }
unfolding check_token type_step delay_over report_keys
one_round now s h r step rest a b c d =
    let q = (reported now h step.modifier step.keys d).0 in ground arith

-- A macro that is cancelled before it checks its token.
cancelled_ends :
    (s : Dispatcher) (h : Hid) (r : Running) (other : KeyboardMacroStep)
    (rest : List KeyboardMacroStep)
    → s.hid ≡ some h
    → s.running ≡ some (record r { phase = typing (other ∷ rest) })
    → let s' = leave (send_end (check_token (end_cancel (begin_cancel s)))) in
      (s'.running ≡ none) × (s'.completed ≡ s.completed) × (s'.hid ≡ some h)
unfolding begin_cancel end_cancel check_token send_end leave send_reliable
cancelled_ends s h r other rest a b =
    let count : (s.cancels + 1 == 0) ≡ false = ground arith in
    (ground (arith, count), ground (arith, count), ground (arith, count))

-- A macro that is cancelled when the delay of a step has run out, and before it checks its token for the
-- next step, ends without a report: the keys and modifiers of its last step stay down.
pub cancelled_between_steps :
    (now : ℕ) (s : Dispatcher) (h : Hid) (r : Running) (step other : KeyboardMacroStep)
    (rest : List KeyboardMacroStep)
    → s.hid ≡ some h
    → s.running ≡ some (record r { phase = typing (step ∷ other ∷ rest) })
    → r.cancelled ≡ false
    → h.writer_alive ≡ true
    → let s' = leave (send_end (check_token (end_cancel (begin_cancel (round now s))))) in
      (s'.running ≡ none)
      × (s'.completed ≡ s.completed)
      × ((h' : Hid) × (s'.hid ≡ some h') × (h'.keys_down ≡ keys_of step))
cancelled_between_steps now s h r step other rest a b c d =
    let h' = (keyboard_report now h step.modifier step.keys).0 in
    subst
      (λ x.
        let s' = leave (send_end (check_token (end_cancel (begin_cancel x)))) in
        (s'.running ≡ none)
        × (s'.completed ≡ s.completed)
        × ((k : Hid) × (s'.hid ≡ some k) × (k.keys_down ≡ keys_of step)))
      (sym (one_round now s h r step (other ∷ rest) a b c d))
      (let after = record s {
        hid = some h';
        running = some (record r { phase = typing (other ∷ rest) });
      } in
        let (gone, same, kept) = cancelled_ends after h' r other rest refl refl in
        (gone, same, (h', kept, reported-keys_down now h step)))

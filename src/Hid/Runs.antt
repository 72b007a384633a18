-- ===== src/Hid/Runs.antt =====
-- Concrete key events, queues and link states.
use rustkvm.Common.{
  ℕ, ◌+◌, ◌≡◌, refl, List, [], ◌∷◌, Bool, true, false, not, replicate, some, none, arith,
}
use rustkvm.Common.Text.{codes}
use rustkvm.Hid.Keys.{KeysDownState, apply_keypress, modifier_mask}
use rustkvm.Hid.Held.{Holds, Shows, hold}
use rustkvm.Hid.Keypress.{apply_keypress-hold, rollover_sticks}
use rustkvm.Hid.Device.{Hid, HidWriteCmd, keyboard, rel_mouse, close_files}
use rustkvm.Hid.Reports.{IsOpen}
use rustkvm.Hid.Writer.{
  HidWriter, dev_keyboard, dev_rel_mouse, Node, wrote, failed, interrupted, would_block, run,
  run_one, is_open, device_and_payload, write_loop,
}
use rustkvm.Hid.Closing.{failed_write_drops, written_queue_closes, IsClosed, commands, rounds}
use rustkvm.Hid.Link.{
  Poller, Sample, finished, tick, poll, link_of, udc_link_up, read_state, tick-InStep, InStep,
  failed_reopen_never_suspends,
}

abbrev two_down : KeysDownState
two_down = record { modifier = 2; keys = 4 ∷ 5 ∷ 0 ∷ 0 ∷ 0 ∷ 0 ∷ [] }

two_down-Holds : Holds two_down.keys (4 ∷ 5 ∷ [])
two_down-Holds = record {
  array = refl;
  fits = omega arith;
  distinct = (refl, (refl, tt));
  nonzero = ((λ e. ground arith), ((λ e. ground arith), tt));
}

apply_keypress-hold_example :
    Shows (apply_keypress two_down 4 false).keys (hold 4 false (4 ∷ 5 ∷ []))
    × ((apply_keypress two_down 4 false).modifier ≡ 2)
unfolding modifier_mask
apply_keypress-hold_example =
    apply_keypress-hold two_down (4 ∷ 5 ∷ []) 4 false two_down-Holds (λ e. ground arith) refl

rollover_sticks_example :
    (apply_keypress (record { modifier = 0; keys = replicate 6 1 }) 4 false).keys ≡ replicate 6 0x01
rollover_sticks_example =
    rollover_sticks (record { modifier = 0; keys = replicate 6 1 }) 4 false refl (λ e. ground arith)

abbrev idle : Hid
idle = record {
  keys_down = two_down;
  queue = rel_mouse (0 ∷ 1 ∷ 2 ∷ 0 ∷ []) ∷ [];
  writer_alive = true;
  io_suspended = false;
  reader = true;
  last_user_input = 0;
  last_full_warn = none;
}

idle-IsOpen : IsOpen idle
idle-IsOpen = record { running = refl; alive = refl; room = omega arith }

abbrev all_open : HidWriter
all_open = record {
  keyboard_open = true;
  abs_mouse_open = true;
  rel_mouse_open = true;
  last_warn = none;
  suppressed = 0;
  acks = 0;
  warned = 0;
}

abbrev broken : Node
broken = record { found = true; opens = true; outcomes = interrupted ∷ failed ∷ [] }

abbrev good : Node
good = record { found = true; opens = true; outcomes = would_block true ∷ wrote 8 ∷ [] }

failed_write_drops_example :
    (w' : HidWriter) × (run_one 10 all_open (keyboard (replicate 8 0)) (close_files ∷ []) broken
      ≡ some (w', []))
    × (w'.acks ≡ 0)
    × (is_open w' dev_keyboard ≡ false)
    × (is_open w' dev_rel_mouse ≡ is_open all_open dev_rel_mouse)
    × (w'.warned + w'.suppressed ≡ 2)
unfolding device_and_payload write_loop
failed_write_drops_example =
    failed_write_drops 10 all_open (keyboard (replicate 8 0)) (close_files ∷ []) broken dev_keyboard
      dev_rel_mouse (replicate 8 0) refl refl (λ e. ground arith)

abbrev one_report : List (HidWriteCmd × ℕ × Node)
one_report = (keyboard (replicate 8 0), 10, good) ∷ []

written_queue_closes_example :
    (w' : HidWriter) × (run all_open (commands one_report) (rounds (20, good) one_report)
      ≡ some (w', []))
    × IsClosed w'
    × (w'.acks ≡ 1)
unfolding device_and_payload write_loop
written_queue_closes_example =
    written_queue_closes all_open one_report (20, good)
      ((dev_keyboard, replicate 8 0, refl, refl, refl, refl), tt)

abbrev believed_open : Poller
believed_open = record {
  last_state = codes "configured";
  hid_open = some true;
  io_suspended = false;
  broadcasts = [];
}

abbrev unplugged : Bool → Sample
unplugged done = record {
  present = true;
  content = some (codes "not attached");
  task = finished done;
}

abbrev configured : Bool → Sample
configured done = record {
  present = true;
  content = some (codes "configured");
  task = finished done;
}

believed_open-InStep : InStep believed_open
believed_open-InStep = record { closed = λ e. ground arith; opened = λ e. refl }

tick-InStep_example :
    InStep (tick believed_open (unplugged true))
    × ((tick believed_open (unplugged true)).hid_open ≡ some (link_of (unplugged true)))
    × ((tick believed_open (unplugged true)).io_suspended ≡ not (link_of (unplugged true)))
tick-InStep_example = tick-InStep believed_open (unplugged true) believed_open-InStep refl

failed_reopen_never_suspends_example :
    (poll
      (record believed_open { hid_open = some false; io_suspended = true })
      (configured false ∷ unplugged true ∷ [])).io_suspended
    ≡ false
unfolding link_of udc_link_up read_state
failed_reopen_never_suspends_example =
    failed_reopen_never_suspends
      (record believed_open { hid_open = some false; io_suspended = true }) (configured false)
      (unplugged true ∷ []) (λ e. ground arith) refl refl (refl, tt)

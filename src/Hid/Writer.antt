-- ===== src/Hid/Writer.antt =====
-- app/src/hardware/usb/hid.rs: the thread `hid-writer`. What the operating system answers to a write is a
-- list of outcomes, one for each call; times are in milliseconds.
use rustkvm.Common.{
  ℕ, ◌+◌, List, [], ◌∷◌, Bool, true, false, ◌&&◌, ◌||◌, if◌then◌else◌, ◌==◌, length, Option, none,
  some,
}
use rustkvm.Hid.Device.{
  HidWriteCmd, keyboard, abs_mouse, abs_wheel, rel_mouse, close_files, warn_due,
}

-- `files` tells for the keyboard, the absolute and the relative mouse whether its gadget file is open.
-- `acks` counts the acknowledgements sent for `CloseFiles`, `warned` the dropped reports that the
-- warnings made so far have reported.
pub record HidWriter : Type 0 where
  pub keyboard_open : Bool
  pub abs_mouse_open : Bool
  pub rel_mouse_open : Bool
  pub last_warn : Option ℕ
  pub suppressed : ℕ
  pub acks : ℕ
  pub warned : ℕ

pub data Device : Type 0 where
  dev_keyboard dev_abs_mouse dev_rel_mouse : Device

unfoldable pub device_and_payload : HidWriteCmd → Option (Device × List ℕ)
device_and_payload (keyboard b) = some (dev_keyboard, b)
device_and_payload (abs_mouse b) = some (dev_abs_mouse, b)
device_and_payload (abs_wheel b) = some (dev_abs_mouse, b)
device_and_payload (rel_mouse b) = some (dev_rel_mouse, b)
device_and_payload close_files = none

unfoldable pub is_open : HidWriter → Device → Bool
is_open w dev_keyboard = w.keyboard_open
is_open w dev_abs_mouse = w.abs_mouse_open
is_open w dev_rel_mouse = w.rel_mouse_open

unfoldable pub set_open : HidWriter → Device → Bool → HidWriter
set_open w dev_keyboard b = record w { keyboard_open = b }
set_open w dev_abs_mouse b = record w { abs_mouse_open = b }
set_open w dev_rel_mouse b = record w { rel_mouse_open = b }

-- What one call of `write` meets. `would_block` carries whether time remained and `poll` said that the file
-- became writable.
pub data WriteOutcome : Type 0 where
  wrote : ℕ → WriteOutcome
  would_block : Bool → WriteOutcome
  interrupted : WriteOutcome
  failed : WriteOutcome

-- The loop of `write_report`: `some true` is `Ok(())`, `some false` an error, and `none` that the loop still
-- goes on when the outcomes are used up.
unfoldable pub write_loop : ℕ → List WriteOutcome → Option Bool
write_loop len [] = none
write_loop len (wrote n ∷ outcomes) = some (n == len)
write_loop len (would_block true ∷ outcomes) = write_loop len outcomes
write_loop len (would_block false ∷ outcomes) = some false
write_loop len (interrupted ∷ outcomes) = write_loop len outcomes
write_loop len (failed ∷ outcomes) = some false

-- The gadget node as `write_report` finds it.
pub record Node : Type 0 where
  pub found : Bool
  pub opens : Bool
  pub outcomes : List WriteOutcome

unfoldable pub write_report : HidWriter → Device → List ℕ → Node → Option (HidWriter × Bool)
unfolding is_open set_open write_loop
write_report w dev payload node =
    if is_open w dev || (node.found && node.opens)
    then elim (write_loop (length payload) node.outcomes) [
      | none ↦ none
      | some done ↦ some (set_open w dev true, done)
    ]
    else some (w, false)

unfoldable pub warn_rate_limited : ℕ → HidWriter → ℕ → HidWriter
warn_rate_limited now w dropped =
    let suppressed = w.suppressed + (1 + dropped) in
    if warn_due w.last_warn now
    then record w { last_warn = some now; suppressed = 0; warned = w.warned + suppressed }
    else record w { suppressed = suppressed }

-- The error branch of `run`: the file is closed, and the channel is emptied by `try_recv`.
unfoldable pub write_failed :
    ℕ → HidWriter → Device → List HidWriteCmd → HidWriter × List HidWriteCmd
unfolding set_open warn_rate_limited
write_failed now w dev queue = (warn_rate_limited now (set_open w dev false) (length queue), [])

unfoldable pub close_all : HidWriter → HidWriter
close_all w = record w {
  keyboard_open = false;
  abs_mouse_open = false;
  rel_mouse_open = false;
  acks = w.acks + 1;
}

-- One round of `run` for the command taken off the queue. `none`: the write has not come back.
unfoldable pub run_one :
    ℕ → HidWriter → HidWriteCmd → List HidWriteCmd → Node → Option (HidWriter × List HidWriteCmd)
unfolding device_and_payload close_all
run_one now w cmd queue node = elim (device_and_payload cmd) [
  | none ↦ some (close_all w, queue)
  | some (dev, payload) ↦ elim (write_report w dev payload node) [
    | none ↦ none
    | some (w', done) ↦ if done then some (w', queue) else some (write_failed now w' dev queue)
  ]
]

-- `run` over the queue, with the time and the node that each round meets.
unfoldable pub run :
    HidWriter → List HidWriteCmd → List (ℕ × Node) → Option (HidWriter × List HidWriteCmd)
run w [] rounds = some (w, [])
run w (cmd ∷ queue) [] = some (w, cmd ∷ queue)
run w (cmd ∷ queue) ((now, node) ∷ rounds) = elim (run_one now w cmd queue node) [
  | none ↦ none
  | some (w', queue') ↦ run w' queue' rounds
]

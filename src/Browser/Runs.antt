-- ===== src/Browser/Runs.antt =====
-- Concrete key events of the page.
use rustkvm.Common.{◌≡◌, refl, [], ◌∷◌, true, false, none, some, replicate}
use rustkvm.HidRpc.{marshal}
use rustkvm.HidRpc.Payload.{new_keyboard_report_message}
use rustkvm.Hid.Device.{Hid, new, copy_keys}
use rustkvm.Dispatcher.{Dispatcher, dispatch}
use rustkvm.Browser.{KbState, send_keyboard, key_slots}
use rustkvm.Browser.Keyboard.{send_keyboard-dispatch}

abbrev server : Dispatcher
server = record {
  hid = some (new 0);
  reliable_channel = true;
  cancel_all_epoch = 0;
  channel_epoch = 0;
  waiting = [];
  running = none;
  sent = [];
  completed = 0;
  cancels = 0;
  clearing = false;
}

abbrev two_held : KbState
two_held = record { modifiers = 2; keys = 4 ∷ 5 ∷ [] }

send_keyboard-dispatch_example :
    (h' : Hid) × (dispatch 5 false
        (marshal (new_keyboard_report_message 2 (copy_keys (replicate 6 0) (4 ∷ 5 ∷ []))))
        server
      ≡ some (record server { hid = some h' }))
    × (h'.keys_down.modifier ≡ 2)
    × (h'.keys_down.keys ≡ copy_keys (replicate 6 0) (4 ∷ 5 ∷ []))
unfolding send_keyboard key_slots
send_keyboard-dispatch_example = send_keyboard-dispatch 5 server (new 0) two_held refl refl

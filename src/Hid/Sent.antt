-- ===== src/Hid/Sent.antt =====
-- app/src/hardware/usb/hid.rs: the report of the keyboard and what it leaves.
use rustkvm.Common.{
  ℕ, ◌≡◌, ◌≢◌, refl, ap, ◌∙◌, List, [], ◌∷◌, Bool, true, take, replicate, none, some, arith,
}
use rustkvm.Common.Int.{ℤ}
use rustkvm.Hid.Keys.{apply_keypress}
use rustkvm.Hid.Indexes.{keypress_checked-apply_keypress}
use rustkvm.Hid.Device.{
  Hid, HidWriteCmd, keyboard, panicked, enqueue, copy_keys, fill_report, keyboard_bytes,
  write_keyboard_report, keyboard_report, keypress_report, abs_mouse_report, rel_mouse_report,
}

-- No index of a report is out of range: the bytes are those of the keys, at most six.
pub keyboard_bytes_copy :
    (modifier : ℕ) (keys : List ℕ)
    → keyboard_bytes modifier keys ≡ some (modifier ∷ 0 ∷ copy_keys (replicate 6 0) (take 6 keys))
unfolding keyboard_bytes fill_report copy_keys
keyboard_bytes_copy m [] = refl
keyboard_bytes_copy m (a ∷ []) = refl
keyboard_bytes_copy m (a ∷ b ∷ []) = refl
keyboard_bytes_copy m (a ∷ b ∷ c ∷ []) = refl
keyboard_bytes_copy m (a ∷ b ∷ c ∷ d ∷ []) = refl
keyboard_bytes_copy m (a ∷ b ∷ c ∷ d ∷ e ∷ []) = refl
keyboard_bytes_copy m (a ∷ b ∷ c ∷ d ∷ e ∷ f ∷ rest) = refl

-- A report of the keyboard is always queued, and never a panic.
pub write_keyboard_report-enqueue :
    (now : ℕ) (h : Hid) (modifier : ℕ) (keys : List ℕ)
    → write_keyboard_report now h modifier keys
      ≡ enqueue now h (keyboard (modifier ∷ 0 ∷ copy_keys (replicate 6 0) (take 6 keys)))
unfolding write_keyboard_report keyboard_bytes enqueue
write_keyboard_report-enqueue now h modifier keys = rw (keyboard_bytes_copy modifier keys) refl

-- The `Hid` of `keyboard_report` before the report.
abbrev pub with_keys : ℕ → List ℕ → Hid → Hid
with_keys modifier keys h = record h {
  keys_down = record { modifier = modifier; keys = copy_keys (replicate 6 0) (take 6 keys) };
}

pub keyboard_report-enqueue :
    (now : ℕ) (h : Hid) (modifier : ℕ) (keys : List ℕ)
    → keyboard_report now h modifier keys
      ≡ enqueue now
          (with_keys modifier keys h)
          (keyboard (modifier ∷ 0 ∷ copy_keys (replicate 6 0) (take 6 keys)))
unfolding keyboard_report
keyboard_report-enqueue now h modifier keys =
    write_keyboard_report-enqueue now (with_keys modifier keys h) modifier keys

enqueue-keys_down :
    (now : ℕ) (h : Hid) (cmd : HidWriteCmd) → (enqueue now h cmd).0.keys_down ≡ h.keys_down
unfolding enqueue
enqueue-keys_down now h cmd = ground arith

enqueue-alive :
    (now : ℕ) (h : Hid) (cmd : HidWriteCmd)
    → h.writer_alive ≡ true
    → ((enqueue now h cmd).1 ≡ none) × ((enqueue now h cmd).0.writer_alive ≡ true)
unfolding enqueue
enqueue-alive now h cmd a = (ground arith, ground arith)

pub enqueue_no_panic :
    (now : ℕ) (h : Hid) (cmd : HidWriteCmd) → (enqueue now h cmd).1 ≢ some panicked
unfolding enqueue
enqueue_no_panic now h cmd e = ground arith

pub keyboard_report-keys_down :
    (now : ℕ) (h : Hid) (modifier : ℕ) (keys : List ℕ)
    → (keyboard_report now h modifier keys).0.keys_down
      ≡ record { modifier = modifier; keys = copy_keys (replicate 6 0) (take 6 keys) }
keyboard_report-keys_down now h modifier keys =
    ap (λ r. r.0.keys_down) (keyboard_report-enqueue now h modifier keys)
    ∙ enqueue-keys_down now (with_keys modifier keys h) _

pub keyboard_report-alive :
    (now : ℕ) (h : Hid) (modifier : ℕ) (keys : List ℕ)
    → h.writer_alive ≡ true
    → ((keyboard_report now h modifier keys).1 ≡ none)
      × ((keyboard_report now h modifier keys).0.writer_alive ≡ true)
keyboard_report-alive now h modifier keys a =
    rw (keyboard_report-enqueue now h modifier keys)
      (enqueue-alive now (with_keys modifier keys h) _ a)

pub keyboard_report_no_panic :
    (now : ℕ) (h : Hid) (modifier : ℕ) (keys : List ℕ)
    → (keyboard_report now h modifier keys).1 ≢ some panicked
keyboard_report_no_panic now h modifier keys =
    rw (keyboard_report-enqueue now h modifier keys)
      (enqueue_no_panic now (with_keys modifier keys h) _)

-- A key event queues the report of the keys that `apply_keypress` leaves, and no index is out of range.
pub keypress_report-enqueue :
    (now : ℕ) (h : Hid) (key : ℕ) (press : Bool)
    → let s = apply_keypress h.keys_down key press in
      keypress_report now h key press
      ≡ enqueue now
          (record h { keys_down = s })
          (keyboard (s.modifier ∷ 0 ∷ copy_keys (replicate 6 0) (take 6 s.keys)))
unfolding keypress_report
keypress_report-enqueue now h key press =
    let s = apply_keypress h.keys_down key press in
    rw (keypress_checked-apply_keypress h.keys_down key press, keypress_report)
      (write_keyboard_report-enqueue now (record h { keys_down = s }) s.modifier s.keys)

pub keypress_report_no_panic :
    (now : ℕ) (h : Hid) (key : ℕ) (press : Bool)
    → (keypress_report now h key press).1 ≢ some panicked
keypress_report_no_panic now h key press =
    rw (keypress_report-enqueue now h key press) (enqueue_no_panic now _ _)

pub abs_mouse_report_no_panic :
    (now : ℕ) (h : Hid) (x y : ℤ) (buttons : ℕ)
    → (abs_mouse_report now h x y buttons).1 ≢ some panicked
unfolding abs_mouse_report
abs_mouse_report_no_panic now h x y buttons = enqueue_no_panic now h _

pub rel_mouse_report_no_panic :
    (now : ℕ) (h : Hid) (dx dy : ℤ) (buttons : ℕ)
    → (rel_mouse_report now h dx dy buttons).1 ≢ some panicked
unfolding rel_mouse_report
rel_mouse_report_no_panic now h dx dy buttons = enqueue_no_panic now h _

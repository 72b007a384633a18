-- ===== src/Hid/Reports.antt =====
-- app/src/hardware/usb/hid.rs: what the queued reports tell the host.
use rustkvm.Common.{
  ℕ, suc, ◌+◌, ◌*◌, ◌≤◌, ◌<◌, ◌≡◌, refl, ap, List, [], ◌∷◌, ◌++◌, Bool, true, false, length,
  length-append, take, replicate, none, arith,
}
use rustkvm.Common.Int.{pos}
use rustkvm.Hid.Keys.{KeysDownState, apply_keypress}
use rustkvm.Hid.Sent.{with_keys, keyboard_report-enqueue, keypress_report-enqueue}
use rustkvm.Hid.Device.{
  Hid, HidWriteCmd, keyboard, hid_write_queue_depth, enqueue, copy_keys, keyboard_report,
  keypress_report, abs_mouse_bytes,
}

-- The eight bytes of the boot keyboard report for a state of the keys.
abbrev pub report_of : KeysDownState → List ℕ
report_of s = s.modifier ∷ 0 ∷ s.keys

-- Input reports reach the queue.
pub record IsOpen (h : Hid) : Type 0 where
  pub running : h.io_suspended ≡ false
  pub alive : h.writer_alive ≡ true
  pub room : length h.queue < hid_write_queue_depth

enqueue_open :
    (now : ℕ) (h : Hid) (cmd : HidWriteCmd)
    → IsOpen h
    → enqueue now h cmd ≡ (record h { last_user_input = now; queue = h.queue ++ (cmd ∷ []) }, none)
unfolding enqueue
enqueue_open now h cmd o = ground arith

length-copy_keys : (slots keys : List ℕ) → length (copy_keys slots keys) ≡ length slots
unfolding copy_keys
length-copy_keys [] keys = refl
length-copy_keys (s ∷ slots) [] = refl
length-copy_keys (s ∷ slots) (k ∷ keys) = ap suc (length-copy_keys slots keys)

-- While reports are let through, the writer lives and its queue has room, a whole keyboard report is
-- recorded and queued alike: the command behind the others in the queue is the boot report of the state
-- that `Hid` now keeps, which has the given modifier byte and six keys.
pub keyboard_report_queued :
    (now : ℕ) (h : Hid) (modifier : ℕ) (keys : List ℕ)
    → IsOpen h
    → let (h', e) = keyboard_report now h modifier keys in
      (h'.queue ≡ h.queue ++ (keyboard (report_of h'.keys_down) ∷ []))
      × (h'.keys_down.modifier ≡ modifier)
      × (length h'.keys_down.keys ≡ 6)
      × (e ≡ none)
keyboard_report_queued now h modifier keys o =
    let h1 = with_keys modifier keys h in
    rw
      (
        keyboard_report-enqueue now h modifier keys,
        enqueue_open now h1 (keyboard (report_of h1.keys_down))
            (record { running = o.running; alive = o.alive; room = o.room }),
      )
      (refl, refl, length-copy_keys (replicate 6 0) (take 6 keys), refl)

-- An absolute position from 0 to 32767 is in the report as two little-endian bytes for each coordinate.
pub abs_mouse_bytes_position :
    (x y buttons : ℕ)
    → x < 32768
    → y < 32768
    → (lx : ℕ) × (hx : ℕ) × (ly : ℕ) × (hy : ℕ) × (abs_mouse_bytes (pos x) (pos y) buttons
        ≡ 1 ∷ buttons ∷ lx ∷ hx ∷ ly ∷ hy ∷ [])
      × (lx + 256 * hx ≡ x)
      × (ly + 256 * hy ≡ y)
unfolding abs_mouse_bytes
abs_mouse_bytes_position x y buttons hx hy = (_, _, _, _, refl, omega arith, omega arith)

-- While the I/O is suspended a key event queues no report, but the keys are recorded all the same.
pub suspended_drops :
    (now : ℕ) (h : Hid) (key : ℕ) (press : Bool)
    → h.io_suspended ≡ true
    → let (h', e) = keypress_report now h key press in
      (h'.queue ≡ h.queue) × (h'.keys_down ≡ apply_keypress h.keys_down key press) × (e ≡ none)
unfolding enqueue
suspended_drops now h key press s =
    rw (keypress_report-enqueue now h key press) (ground arith, ground arith, ground arith)

-- No report is queued beyond the depth of the queue.
pub enqueue_bounded :
    (now : ℕ) (h : Hid) (cmd : HidWriteCmd)
    → length h.queue ≤ hid_write_queue_depth
    → length (enqueue now h cmd).0.queue ≤ hid_write_queue_depth
unfolding enqueue
enqueue_bounded now h cmd b = ground (arith, length-append h.queue (cmd ∷ []))

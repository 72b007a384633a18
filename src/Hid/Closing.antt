-- ===== src/Hid/Closing.antt =====
-- app/src/hardware/usb/hid.rs: the gadget files behind `suspend_io`.
use rustkvm.Common.{
  ℕ, ◌+◌, ◌≡◌, ◌≢◌, refl, List, [], ◌∷◌, Bool, true, false, length, some, arith, ◌&&◌, ◌||◌, ◌∙◌,
  ap, inl, inr, Bool-cases,
}
use rustkvm.Common.Predicates.{All}
use rustkvm.Hid.Device.{HidWriteCmd, close_files}
use rustkvm.Hid.Writer.{
  HidWriter, Device, dev_keyboard, dev_abs_mouse, dev_rel_mouse, Node, device_and_payload, is_open,
  set_open, write_loop, write_report, warn_rate_limited, write_failed, close_all, run_one, run,
}

abbrev pub IsClosed : HidWriter → Type 0
IsClosed w = (w.keyboard_open ≡ false) × (w.abs_mouse_open ≡ false) × (w.rel_mouse_open ≡ false)

-- The command is a report, and its node takes it: the file opens, and a write takes the whole payload.
abbrev pub Accepts : HidWriteCmd × ℕ × Node → Type 0
Accepts (cmd, now, node) =
    (dev : Device) × (payload : List ℕ) × (device_and_payload cmd ≡ some (dev, payload))
    × (node.found ≡ true)
    × (node.opens ≡ true)
    × (write_loop (length payload) node.outcomes ≡ some true)

set_open_twice :
    (w : HidWriter) (dev : Device) (b c : Bool)
    → set_open (set_open w dev b) dev c ≡ set_open w dev c
unfolding set_open
set_open_twice w dev_keyboard b c = refl
set_open_twice w dev_abs_mouse b c = refl
set_open_twice w dev_rel_mouse b c = refl

-- A report that is not written leaves a state in which, with its file closed, no other file has changed.
write_report_fails :
    (w : HidWriter) (dev : Device) (payload : List ℕ) (node : Node)
    → write_loop (length payload) node.outcomes ≡ some false
    → (w' : HidWriter) × (write_report w dev payload node ≡ some (w', false))
      × (set_open w' dev false ≡ set_open w dev false)
unfolding write_report
write_report_fails w dev payload node f =
    elim (Bool-cases (is_open w dev || (node.found && node.opens))) [
      | inl e ↦ (set_open w dev true, rw (e, f, write_report), set_open_twice w dev true false)
      | inr e ↦ (w, rw (e, write_report), refl)
    ]

set_open_other :
    (w : HidWriter) (dev other : Device) (b : Bool)
    → other ≢ dev
    → is_open (set_open w dev b) other ≡ is_open w other
unfolding set_open is_open
set_open_other w dev_keyboard dev_keyboard b n = absurd (n refl)
set_open_other w dev_keyboard dev_abs_mouse b n = refl
set_open_other w dev_keyboard dev_rel_mouse b n = refl
set_open_other w dev_abs_mouse dev_keyboard b n = refl
set_open_other w dev_abs_mouse dev_abs_mouse b n = absurd (n refl)
set_open_other w dev_abs_mouse dev_rel_mouse b n = refl
set_open_other w dev_rel_mouse dev_keyboard b n = refl
set_open_other w dev_rel_mouse dev_abs_mouse b n = refl
set_open_other w dev_rel_mouse dev_rel_mouse b n = absurd (n refl)

set_open_self : (w : HidWriter) (dev : Device) (b : Bool) → is_open (set_open w dev b) dev ≡ b
unfolding set_open is_open
set_open_self w dev_keyboard b = refl
set_open_self w dev_abs_mouse b = refl
set_open_self w dev_rel_mouse b = refl

set_open_counts :
    (w : HidWriter) (dev : Device) (b : Bool)
    → ((set_open w dev b).acks ≡ w.acks)
      × ((set_open w dev b).warned ≡ w.warned)
      × ((set_open w dev b).suppressed ≡ w.suppressed)
unfolding set_open
set_open_counts w dev_keyboard b = (refl, refl, refl)
set_open_counts w dev_abs_mouse b = (refl, refl, refl)
set_open_counts w dev_rel_mouse b = (refl, refl, refl)

-- Every dropped report is in a warning or is still counted; the files and the acknowledgements stay.
warn_counts :
    (now : ℕ) (w : HidWriter) (dropped : ℕ) (dev : Device)
    → let w' = warn_rate_limited now w dropped in
      (w'.warned + w'.suppressed ≡ w.warned + w.suppressed + 1 + dropped)
      × (w'.acks ≡ w.acks)
      × (is_open w' dev ≡ is_open w dev)
unfolding warn_rate_limited is_open
warn_counts now w dropped dev_keyboard = ground arith
warn_counts now w dropped dev_abs_mouse = ground arith
warn_counts now w dropped dev_rel_mouse = ground arith

-- A failed write takes every command behind it off the queue, a `CloseFiles` among them: its
-- acknowledgement is never sent, and each file of another device that was open stays open.
pub failed_write_drops :
    (now : ℕ) (w : HidWriter) (cmd : HidWriteCmd) (queue : List HidWriteCmd) (node : Node)
    (dev other : Device) (payload : List ℕ)
    → device_and_payload cmd ≡ some (dev, payload)
    → write_loop (length payload) node.outcomes ≡ some false
    → other ≢ dev
    → (w' : HidWriter) × (run_one now w cmd queue node ≡ some (w', []))
      × (w'.acks ≡ w.acks)
      × (is_open w' dev ≡ false)
      × (is_open w' other ≡ is_open w other)
      × (w'.warned + w'.suppressed ≡ w.warned + w.suppressed + 1 + length queue)
failed_write_drops now w cmd queue node dev other payload d f ne =
    let (wx, e, same) = write_report_fails w dev payload node f in
    let closed = set_open w dev false in
    let after = warn_rate_limited now closed (length queue) in
    let (acks, warned, suppressed) = set_open_counts w dev false in
    let (kept, acks', here) = warn_counts now closed (length queue) dev in
    let there = (warn_counts now closed (length queue) other).2 in
    (
      after,
      unfold run_one write_failed in rw (d, run_one) (rw (e, run_one) (rw same)),
      acks' ∙ acks,
      here ∙ set_open_self w dev false,
      there ∙ set_open_other w dev other false ne,
      omega arith,
    )

run_one_accepted :
    (now : ℕ) (w : HidWriter) (cmd : HidWriteCmd) (queue : List HidWriteCmd) (node : Node)
    (dev : Device) (payload : List ℕ)
    → device_and_payload cmd ≡ some (dev, payload)
    → node.found ≡ true
    → node.opens ≡ true
    → write_loop (length payload) node.outcomes ≡ some true
    → run_one now w cmd queue node ≡ some (set_open w dev true, queue)
unfolding run_one
run_one_accepted now w cmd queue node dev payload d f o done =
    rw (d, run_one) (rw (wrote_all, run_one))
  where
    wrote_all : write_report w dev payload node ≡ some (set_open w dev true, true)
    wrote_all = unfold write_report in ground arith

-- The queue of some reports with `CloseFiles` behind them, and the rounds that serve it.
abbrev pub commands : List (HidWriteCmd × ℕ × Node) → List HidWriteCmd
commands [] = close_files ∷ []
commands ((cmd, now, node) ∷ items) = cmd ∷ commands items

abbrev pub rounds : ℕ × Node → List (HidWriteCmd × ℕ × Node) → List (ℕ × Node)
rounds last [] = last ∷ []
rounds last ((cmd, now, node) ∷ items) = (now, node) ∷ rounds last items

-- `CloseFiles` behind reports that are all written is reached: the queue is then empty, every file is
-- closed, and the acknowledgement is sent.
pub written_queue_closes :
    (w : HidWriter) (items : List (HidWriteCmd × ℕ × Node)) (last : ℕ × Node)
    → All Accepts items
    → (w' : HidWriter) × (run w (commands items) (rounds last items) ≡ some (w', []))
      × IsClosed w'
      × (w'.acks ≡ w.acks + 1)
unfolding run
written_queue_closes w [] last h = (
  close_all w,
  unfold run_one in refl,
  unfold close_all in (refl, refl, refl),
  unfold close_all in refl,
)
written_queue_closes w ((cmd, now, node) ∷ items) last h =
    let (dev, payload, d, f, o, done) = h.0 in
    let (w', e, closed, acks) = written_queue_closes (set_open w dev true) items last h.1 in
    (
      w',
      rw (run_one_accepted now w cmd (commands items) node dev payload d f o done, run) e,
      closed,
      acks ∙ ap (λ n. n + 1) (set_open_counts w dev true).0,
    )

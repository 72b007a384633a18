-- ===== src/Hid/Link.antt =====
-- app/src/hardware/usb/mod.rs: the poller of the UDC state, which closes and reopens the gadget files as
-- the USB link goes down and up. A state's text is the list of its code points.
use rustkvm.Common.{
  ℕ, ◌≡◌, ◌≢◌, sym, ◌∙◌, List, [], ◌∷◌, ◌++◌, Bool, true, false, not, ◌&&◌, ◌||◌, if◌then◌else◌,
  Option, none, some, arith, Bool-cases, inl, inr,
}
use rustkvm.Common.Predicates.{All}
use rustkvm.Common.Text.{codes, text_eq}

abbrev pub udc_state_not_attached : List ℕ
udc_state_not_attached = codes "not attached"

unfoldable pub udc_link_up : List ℕ → Bool
udc_link_up state =
    not
      (text_eq state udc_state_not_attached || text_eq state (codes "unknown") || text_eq state [])

-- The poller's variables, and of `Hid` the flag that keeps the gadget files closed. The shared `UsbState` is
-- written with `last_state`. `broadcasts` are the
-- states announced, newest last.
pub record Poller : Type 0 where
  pub last_state : List ℕ
  pub hid_open : Option Bool
  pub io_suspended : Bool
  pub broadcasts : List (List ℕ)

-- How the blocking task of `sync_hid_io` ends: it finished, and `resume_io` would have succeeded or not; or
-- it panicked and left the flag as given.
pub data Task : Type 0 where
  finished : Bool → Task
  panicked : Bool → Task

-- What one tick finds: whether the state file is there, what reading it gives, and how the task ends.
pub record Sample : Type 0 where
  pub present : Bool
  pub content : Option (List ℕ)
  pub task : Task

-- `sync_hid_io`: the flag of `Hid` behind it, and what it returns.
unfoldable pub sync_hid_io : Bool → Task → Bool × Bool
sync_hid_io true (finished true) = (false, true)
sync_hid_io true (finished false) = (false, false)
sync_hid_io false (finished _) = (true, false)
sync_hid_io link_up (panicked flag) = (flag, not link_up)

unfoldable pub read_state : Sample → List ℕ
read_state s =
    if s.present
    then elim s.content [ some state ↦ state | none ↦ codes "unknown" ]
    else udc_state_not_attached

unfoldable pub link_of : Sample → Bool
unfolding read_state udc_link_up
link_of s = s.present && udc_link_up (read_state s)

-- `hid_open != Some(link_up)`.
abbrev pub out_of_step : Option Bool → Bool → Bool
out_of_step none link_up = true
out_of_step (some true) link_up = not link_up
out_of_step (some false) link_up = link_up

-- `if hid_open != Some(link_up) { hid_open = Some(sync_hid_io(…)) }`.
unfoldable pub follow : Poller → Bool → Task → Poller
follow p link_up task =
    if out_of_step p.hid_open link_up
    then (let (flag, opened) = sync_hid_io link_up task in
        record p { hid_open = some opened; io_suspended = flag })
    else p

-- `if new_state != last_state { … }`.
unfoldable pub announce : Poller → List ℕ → Poller
announce p new_state =
    if text_eq new_state p.last_state
    then p
    else record p { last_state = new_state; broadcasts = p.broadcasts ++ (new_state ∷ []) }

unfoldable pub tick : Poller → Sample → Poller
tick p s = follow (announce p (read_state s)) (link_of s) s.task

unfoldable pub poll : Poller → List Sample → Poller
poll p [] = p
poll p (s ∷ samples) = poll (tick p s) samples

-- The files follow the link: where the poller believes to have closed them they are suspended, and where it
-- believes to have opened them they are not.
pub record InStep (p : Poller) : Type 0 where
  pub closed : p.hid_open ≡ some false → p.io_suspended ≡ true
  pub opened : p.hid_open ≡ some true → p.io_suspended ≡ false

-- A tick whose task does not panic and does not fail to reopen.
abbrev pub Succeeds : Sample → Type 0
Succeeds s = s.task ≡ finished true

announce_keeps :
    (p : Poller) (state : List ℕ)
    → ((announce p state).hid_open ≡ p.hid_open)
      × ((announce p state).io_suspended ≡ p.io_suspended)
unfolding announce
announce_keeps p state = ground arith

follow-InStep :
    (p : Poller) (link_up : Bool)
    → InStep p
    → InStep (follow p link_up (finished true))
      × ((follow p link_up (finished true)).hid_open ≡ some link_up)
unfolding follow sync_hid_io
follow-InStep p link_up h = elim (Bool-cases link_up) [
  | inl e ↦ rw e (ground arith, ground arith)
  | inr e ↦ rw e (ground arith, ground arith)
]

-- The files follow the link: from a state in step, after a tick whose task succeeds the poller is in step
-- again and believes what the sample says, so the gadget files are suspended exactly when the link is down.
pub tick-InStep :
    (p : Poller) (s : Sample)
    → InStep p
    → Succeeds s
    → InStep (tick p s)
      × ((tick p s).hid_open ≡ some (link_of s))
      × ((tick p s).io_suspended ≡ not (link_of s))
unfolding tick read_state link_of
tick-InStep p s h ok =
    let q = announce p (read_state s) in
    let (o, f) = announce_keeps p (read_state s) in
    let (inner, opened) =
      follow-InStep q (link_of s) (record {
        closed = λ e. f ∙ h.closed (sym o ∙ e);
        opened = λ e. f ∙ h.opened (sym o ∙ e);
      }) in
    rw ok (inner, opened, suspended (follow q (link_of s) (finished true)) (link_of s) inner opened)
  where
    suspended : (r : Poller) (up : Bool) → InStep r → r.hid_open ≡ some up → r.io_suspended ≡ not up
    suspended r true i e = i.opened e
    suspended r false i e = i.closed e

-- Ticks that see the link down.
abbrev pub IsDown : Sample → Type 0
IsDown s = link_of s ≡ false

follow_down : (p : Poller) (task : Task) → p.hid_open ≡ some false → follow p false task ≡ p
unfolding follow
follow_down p task o = ground arith

tick_down :
    (p : Poller) (s : Sample)
    → p.hid_open ≡ some false
    → IsDown s
    → ((tick p s).hid_open ≡ p.hid_open) × ((tick p s).io_suspended ≡ p.io_suspended)
unfolding tick
tick_down p s o d =
    let (o1, f1) = announce_keeps p (read_state s) in
    rw (d, follow_down (announce p (read_state s)) s.task (o1 ∙ o)) (o1, f1)

follow_failed :
    (p : Poller)
    → p.hid_open ≢ some true
    → ((follow p true (finished false)).hid_open ≡ some false)
      × ((follow p true (finished false)).io_suspended ≡ false)
unfolding follow sync_hid_io
follow_failed p o = ground arith

tick_failed :
    (p : Poller) (s : Sample)
    → p.hid_open ≢ some true
    → link_of s ≡ true
    → s.task ≡ finished false
    → ((tick p s).hid_open ≡ some false) × ((tick p s).io_suspended ≡ false)
unfolding tick read_state
tick_failed p s o up failed =
    rw (up, failed)
      (follow_failed (announce p (read_state s))
        (λ e. o (sym (announce_keeps p (read_state s)).0 ∙ e)))

down_stays :
    (p : Poller) (samples : List Sample)
    → p.hid_open ≡ some false
    → p.io_suspended ≡ false
    → All IsDown samples
    → (poll p samples).io_suspended ≡ false
unfolding poll
down_stays p [] o f h = f
down_stays p (s ∷ samples) o f h =
    let (o1, f1) = tick_down p s o h.0 in down_stays (tick p s) samples (o1 ∙ o) (f1 ∙ f) h.1

-- A reopen that fails leaves the files open to input, and the poller takes them for closed: however often it
-- then sees the link down, it never suspends them.
pub failed_reopen_never_suspends :
    (p : Poller) (s : Sample) (samples : List Sample)
    → p.hid_open ≢ some true
    → link_of s ≡ true
    → s.task ≡ finished false
    → All IsDown samples
    → (poll p (s ∷ samples)).io_suspended ≡ false
unfolding poll
failed_reopen_never_suspends p s samples o up failed h =
    let (o1, f1) = tick_failed p s o up failed in down_stays (tick p s) samples o1 f1 h

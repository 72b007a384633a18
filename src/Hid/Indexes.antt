-- ===== src/Hid/Indexes.antt =====
-- app/src/hardware/usb/hid.rs: `apply_keypress` with the indexes of the key array checked. `none` is the panic
-- of an index out of range; there is none.
use Prim.Native.Nat.{bit_and, bit_or}
use rustkvm.Common.{
  ℕ, zero, suc, ◌+◌, ◌-◌, ◌<◌, ◌≡◌, refl, ap, ◌∙◌, List, [], ◌∷◌, Bool, true, false, not, ◌||◌,
  if◌then◌else◌, ltb, ◌==◌, length, length-set, get_elem?, set, map, Option, none, some, arith,
  Bool-cases, Option-cases, inl, inr, lt→ltb,
}
use rustkvm.Hid.Keys.{
  KeysDownState, modifier_mask, find_slot, at, shift_down, apply_slot, apply_keypress,
}

-- `buf[i] = v`.
abbrev pub set_at : List ℕ → ℕ → ℕ → Option (List ℕ)
set_at buf i v = if ltb i (length buf) then some (set buf i v) else none

-- `buf[j] = buf[j + 1]`.
abbrev pub store_at : List ℕ → ℕ → Option ℕ → Option (List ℕ)
store_at buf j none = none
store_at buf j (some b) = set_at buf j b

abbrev pub move_at : List ℕ → ℕ → Option (List ℕ)
move_at buf j = store_at buf j (get_elem? buf (j + 1))

unfoldable pub shift_checked : ℕ → ℕ → Option (List ℕ) → Option (List ℕ)
shift_checked n j none = none
shift_checked zero j (some buf) = some buf
shift_checked (suc n) j (some buf) = shift_checked n (j + 1) (move_at buf j)

abbrev pub clear_at : ℕ → Option (List ℕ) → Option (List ℕ)
clear_at i none = none
clear_at i (some buf) = set_at buf i 0

-- The arm of a release, with what stands in the slot.
abbrev pub release_slot : List ℕ → ℕ → Option ℕ → Option (List ℕ)
release_slot buf i none = none
release_slot buf i (some b) =
    if not (b == 0)
    then clear_at (length buf - 1) (shift_checked (length buf - 1 - i) i (some buf))
    else some buf

unfoldable pub slot_checked : ℕ → Bool → List ℕ → Option ℕ → Option (List ℕ)
unfolding shift_checked
slot_checked key press buf none = some (if press then map (λ _. 0x01) buf else buf)
slot_checked key press buf (some i) =
    if press then set_at buf i key else release_slot buf i (get_elem? buf i)

abbrev pub store_keys : KeysDownState → Option (List ℕ) → Option KeysDownState
store_keys state none = none
store_keys state (some keys) = some (record state { keys = keys })

unfoldable pub keypress_checked : KeysDownState → ℕ → Bool → Option KeysDownState
unfolding slot_checked
keypress_checked state key press = elim (modifier_mask key) [
  | some mask ↦
      if press
      then some (record state { modifier = bit_or state.modifier mask })
      else some (record state { modifier = bit_and state.modifier (255 - mask) })
  | none ↦
      if key == 0
      then some state
      else store_keys state (slot_checked key press state.keys (find_slot key 0 state.keys))
]

get_at : (buf : List ℕ) (i : ℕ) → i < length buf → get_elem? buf i ≡ some (at buf i)
get_at [] i h = absurd (omega arith)
get_at (b ∷ buf) zero h = refl
get_at (b ∷ buf) (suc i) h = get_at buf i (omega arith)

set_at-set : (buf : List ℕ) (i v : ℕ) → i < length buf → set_at buf i v ≡ some (set buf i v)
set_at-set buf i v h = let inside = lt→ltb i (length buf) h in rw inside refl

move_at-set :
    (buf : List ℕ) (j : ℕ) → j + 1 < length buf → move_at buf j ≡ some (set buf j (at buf (j + 1)))
move_at-set buf j h =
    ap (store_at buf j) (get_at buf (j + 1) h) ∙ set_at-set buf j (at buf (j + 1)) (omega arith)

length-shift_down : (n j : ℕ) (buf : List ℕ) → length (shift_down n j buf) ≡ length buf
unfolding shift_down
length-shift_down zero j buf = refl
length-shift_down (suc n) j buf =
    length-shift_down n (j + 1) (set buf j (at buf (j + 1))) ∙ length-set buf j (at buf (j + 1))

shift_checked-shift_down :
    (n j : ℕ) (buf : List ℕ)
    → j + n < length buf
    → shift_checked n j (some buf) ≡ some (shift_down n j buf)
unfolding shift_checked shift_down
shift_checked-shift_down zero j buf h = refl
shift_checked-shift_down (suc n) j buf h =
    let moved = set buf j (at buf (j + 1)) in
    let long = length-set buf j (at buf (j + 1)) in
    ap (shift_checked n (j + 1)) (move_at-set buf j (omega arith))
    ∙ shift_checked-shift_down n (j + 1) moved (omega arith)

find_slot-lt :
    (key i : ℕ) (buf : List ℕ) (k : ℕ) → find_slot key i buf ≡ some k → k < i + length buf
unfolding find_slot
find_slot-lt key i [] k h = ground arith
find_slot-lt key i (b ∷ buf) k h = elim (Bool-cases (b == key || b == 0)) [
  | inl e ↦ ground (arith, e)
  | inr e ↦ let later = find_slot-lt key (i + 1) buf k in ground (arith, e, later)
]

slot_checked-apply_slot :
    (key : ℕ) (press : Bool) (buf : List ℕ) (i : ℕ)
    → i < length buf
    → slot_checked key press buf (some i) ≡ some (apply_slot key press buf (some i))
unfolding slot_checked apply_slot
slot_checked-apply_slot key true buf i h = set_at-set buf i key h
slot_checked-apply_slot key false buf i h =
    let there = get_at buf i h in
    let shifted = shift_checked-shift_down (length buf - 1 - i) i buf (omega arith) in
    let long = length-shift_down (length buf - 1 - i) i buf in
    let cleared =
      set_at-set (shift_down (length buf - 1 - i) i buf) (length buf - 1) 0 (omega arith) in
    elim (Bool-cases (at buf i == 0)) [
      | inl e ↦ ap (release_slot buf i) there ∙ rw e refl
      | inr e ↦
          ap (release_slot buf i) there ∙ rw e (ap (clear_at (length buf - 1)) shifted ∙ cleared)
    ]

slot_checked_found :
    (key : ℕ) (press : Bool) (buf : List ℕ) (slot : Option ℕ)
    → find_slot key 0 buf ≡ slot
    → slot_checked key press buf slot ≡ some (apply_slot key press buf slot)
unfolding slot_checked apply_slot
slot_checked_found key true buf none f = refl
slot_checked_found key false buf none f = refl
slot_checked_found key press buf (some i) f =
    slot_checked-apply_slot key press buf i (omega (arith, find_slot-lt key 0 buf i f))

-- No index of the key array is out of range.
pub keypress_checked-apply_keypress :
    (state : KeysDownState) (key : ℕ) (press : Bool)
    → keypress_checked state key press ≡ some (apply_keypress state key press)
unfolding keypress_checked apply_keypress
keypress_checked-apply_keypress state key press = elim (Option-cases (modifier_mask key)) [
  | inr (mask, e) ↦ ground (arith, e)
  | inl e ↦ elim (Bool-cases (key == 0)) [
    | inl z ↦ rw (e, z, keypress_checked, apply_keypress) refl
    | inr z ↦
        rw (e, z, keypress_checked, apply_keypress)
          (ap (store_keys state)
            (slot_checked_found key press state.keys (find_slot key 0 state.keys) refl))
  ]
]

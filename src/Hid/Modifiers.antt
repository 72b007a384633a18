-- ===== src/Hid/Modifiers.antt =====
-- app/src/hardware/usb/hid.rs: the modifier byte, bit by bit.
use Prim.Native.Nat.{bit_and, bit_or}
use rustkvm.Common.{
  ℕ, ◌+◌, ◌-◌, ◌*◌, ◌/◌, ◌%◌, ◌^◌, ◌≤◌, ◌<◌, ◌≡◌, refl, Bool, true, false, ◌&&◌, if◌then◌else◌,
  ◌==◌, ==_iff, some, arith,
}
use rustkvm.Common.Bytes.{all_below, all_below_sound}
use rustkvm.Hid.Keys.{KeysDownState, modifier_mask, apply_keypress}

-- Bit `i` of a byte.
abbrev pub bit : ℕ → ℕ → ℕ
bit m i = m / 2 ^ i % 2

-- Whether the bits of `m` and of `m'` agree but at `j`, where `m'` has `v`.
differs_at : ℕ → ℕ → ℕ → ℕ → Bool
unfolding all_below
differs_at j v m m' = all_below 8 (λ i. bit m' i == (if i == j then v else bit m i))

-- Setting and clearing bit `n / 256` of the byte `n % 256`.
set_and_clear : ℕ → Bool
unfolding differs_at
set_and_clear n =
    let m = n % 256 in
    let j = n / 256 in
    differs_at j 1 m (bit_or m (2 ^ j)) && differs_at j 0 m (bit_and m (255 - 2 ^ j))

set_and_clear_table : all_below 2048 set_and_clear ≡ true
unfolding set_and_clear all_below
set_and_clear_table = refl

set_and_clear_at : (m j : ℕ) → m < 256 → j < 8 → set_and_clear (m + 256 * j) ≡ true
set_and_clear_at m j hm hj =
    all_below_sound 2048 set_and_clear (m + 256 * j) set_and_clear_table (omega arith)

both_true : (a b : Bool) → (a && b) ≡ true → (a ≡ true) × (b ≡ true)
both_true a b h = ground arith

both_differ :
    (m j : ℕ)
    → m < 256
    → j < 8
    → (differs_at j 1 m (bit_or m (2 ^ j)) ≡ true)
      × (differs_at j 0 m (bit_and m (255 - 2 ^ j)) ≡ true)
unfolding set_and_clear
both_differ m j hm hj =
    let low : (m + 256 * j) % 256 ≡ m = omega arith in
    let high : (m + 256 * j) / 256 ≡ j = omega arith in
    both_true _ _ (rw (low, high) at (set_and_clear_at m j hm hj))

agree_at :
    (j v m m' i : ℕ)
    → differs_at j v m m' ≡ true
    → i < 8
    → bit m' i ≡ (if i == j then v else bit m i)
unfolding differs_at
agree_at j v m m' i h hi =
    (==_iff _ _).0 (all_below_sound 8 (λ i. bit m' i == (if i == j then v else bit m i)) i h hi)

-- Pressing or releasing a modifier key sets or clears its own bit of the modifier byte, and no other; the
-- array of keys stays as it is.
pub apply_keypress_modifier :
    (s : KeysDownState) (key i : ℕ) (press : Bool)
    → s.modifier < 256
    → 0xE0 ≤ key
    → key ≤ 0xE7
    → i < 8
    → (bit (apply_keypress s key press).modifier i
        ≡ (if i == key - 0xE0 then (if press then 1 else 0) else bit s.modifier i))
      × ((apply_keypress s key press).keys ≡ s.keys)
apply_keypress_modifier s key i press hm lo hi h = pressed press
  where
    mask : modifier_mask key ≡ some (2 ^ (key - 0xE0))
    mask = unfold modifier_mask in ground arith

    differ :
        (differs_at (key - 0xE0) 1 s.modifier (bit_or s.modifier (2 ^ (key - 0xE0))) ≡ true)
        × (differs_at (key - 0xE0) 0 s.modifier (bit_and s.modifier (255 - 2 ^ (key - 0xE0)))
            ≡ true)
    differ = both_differ s.modifier (key - 0xE0) hm (omega arith)

    pressed :
        (p : Bool)
        → (bit (apply_keypress s key p).modifier i
            ≡ (if i == key - 0xE0 then (if p then 1 else 0) else bit s.modifier i))
          × ((apply_keypress s key p).keys ≡ s.keys)
    pressed true =
        unfold apply_keypress in
        rw (mask, apply_keypress) (agree_at _ 1 s.modifier _ i differ.0 h, refl)
    pressed false =
        unfold apply_keypress in
        rw (mask, apply_keypress) (agree_at _ 0 s.modifier _ i differ.1 h, refl)

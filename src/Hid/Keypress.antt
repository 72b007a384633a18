-- ===== src/Hid/Keypress.antt =====
-- app/src/hardware/usb/hid.rs: key events on the six-slot array and on the list of keys held.
use rustkvm.Common.{
  ℕ, zero, suc, ◌-◌, ◌≤◌, ◌<◌, ◌≡◌, ◌≢◌, refl, sym, ap, ◌∙◌, List, [], ◌∷◌, ◌++◌, Bool, true, false,
  ◌==◌, ==_refl, ==_ne, ==_iff, length, length-append, set-append, replicate, contains,
  contains-append, Distinct, Distinct-snoc, none, append_assoc, append-nil, arith, Bool-cases, inl,
  inr, map,
}
use native.Mathlib.Nat.{add-zero}
use mathlib.Core.Path.{subst}
use rustkvm.Common.Predicates.{All, All-append}
use rustkvm.Hid.Keys.{KeysDownState, modifier_mask, find_slot, at, apply_slot, apply_keypress}
use rustkvm.Hid.Held.{IsNonzero, Holds, hold, Shows}
use rustkvm.Hid.Slots.{
  remove_slot, contains_split, erase_split, erase_absent, All-IsNonzero_split, press_held,
  find_held, find_free, find_slot_full, at-append,
}

zeros : ℕ → List ℕ
zeros n = replicate n 0

Distinct-remove :
    (xs : List ℕ) (k : ℕ) (ys : List ℕ) → Distinct (xs ++ (k ∷ ys)) → Distinct (xs ++ ys)
Distinct-remove [] k ys h = h.1
Distinct-remove (x ∷ xs) k ys h = (
  ground (arith, contains-append xs (k ∷ ys) x, contains-append xs ys x, h.0),
  Distinct-remove xs k ys h.1,
)

replicate-snoc : (n : ℕ) → replicate {A = ℕ} n 0 ++ (0 ∷ []) ≡ 0 ∷ replicate n 0
replicate-snoc zero = refl
replicate-snoc (suc n) = ap (λ l. 0 ∷ l) (replicate-snoc n)

map_const : (xs : List ℕ) → map {B = ℕ} (λ _. 0x01) xs ≡ replicate (length xs) 0x01
map_const [] = refl
map_const (x ∷ xs) = ap (λ l. 0x01 ∷ l) (map_const xs)

abbrev slots : ℕ → Bool → List ℕ → List ℕ
slots k press keys = apply_slot k press keys (find_slot k 0 keys)

press_slots_held :
    (k : ℕ) (xs ys z : List ℕ)
    → contains xs k ≡ false
    → All IsNonzero xs
    → slots k true ((xs ++ (k ∷ ys)) ++ z) ≡ (xs ++ (k ∷ ys)) ++ z
press_slots_held k xs ys z n nz =
    rw (find_held k xs ys z n nz, append_assoc xs (k ∷ ys) z) (press_held xs (ys ++ z) k)

release_slots_held :
    (k : ℕ) (xs ys z : List ℕ)
    → k ≢ 0
    → contains xs k ≡ false
    → All IsNonzero xs
    → slots k false ((xs ++ (k ∷ ys)) ++ z) ≡ xs ++ ((ys ++ z) ++ (0 ∷ []))
release_slots_held k xs ys z nk n nz =
    rw (find_held k xs ys z n nz, append_assoc xs (k ∷ ys) z) (remove_slot xs k (ys ++ z) nk)

press_slots_free :
    (k n : ℕ) (held : List ℕ)
    → contains held k ≡ false
    → All IsNonzero held
    → slots k true (held ++ replicate (suc n) 0) ≡ held ++ (k ∷ replicate n 0)
unfolding apply_slot
press_slots_free k n held c nz = rw (find_free k n held c nz) (set-append held 0 (replicate n 0) k)

release_slots_free :
    (k n : ℕ) (held : List ℕ)
    → contains held k ≡ false
    → All IsNonzero held
    → slots k false (held ++ replicate (suc n) 0) ≡ held ++ replicate (suc n) 0
unfolding apply_slot
release_slots_free k n held c nz = rw (find_free k n held c nz, free)
  where
    free : at (held ++ (0 ∷ replicate n 0)) (length held) ≡ 0
    free = rw (← add-zero (length held)) (at-append held 0 (0 ∷ replicate n 0))

abbrev pad : List ℕ → List ℕ
pad held = held ++ replicate (6 - length held) 0

one_fewer : (xs ys : List ℕ) (k : ℕ) → length (xs ++ (k ∷ ys)) ≡ suc (length (xs ++ ys))
one_fewer xs ys k = omega (arith, length-append xs (k ∷ ys), length-append xs ys)

-- The array behind a release, the freed slot at its end.
pad_shift :
    (xs ys : List ℕ) (k : ℕ)
    → length (xs ++ (k ∷ ys)) ≤ 6
    → xs ++ ((ys ++ replicate (6 - length (xs ++ (k ∷ ys))) 0) ++ (0 ∷ [])) ≡ pad (xs ++ ys)
pad_shift xs ys k h =
    let n = 6 - length (xs ++ (k ∷ ys)) in
    let e : 6 - length (xs ++ ys) ≡ suc n = omega (arith, one_fewer xs ys k) in
    rw e (
      rw (append_assoc ys (replicate n 0) (0 ∷ []), replicate-snoc n)
        (sym (append_assoc xs ys (0 ∷ replicate n 0))))

split_held :
    (k : ℕ) (press : Bool) (keys xs ys : List ℕ)
    → k ≢ 0
    → Holds keys (xs ++ (k ∷ ys))
    → contains xs k ≡ false
    → Shows (slots k press keys) (hold k press (xs ++ (k ∷ ys)))
unfolding hold
split_held k true keys xs ys nk h n =
    let (nx, _) = All-IsNonzero_split xs (k ∷ ys) h.nonzero in
    rw (contains-append xs (k ∷ ys) k, n, ==_refl k)
      (subst (λ l. Holds l (xs ++ (k ∷ ys))) (same nx) h)
  where
    same : All IsNonzero xs → keys ≡ slots k true keys
    same nx = rw h.array (sym (press_slots_held k xs ys _ n nx))
split_held k false keys xs ys nk h n =
    let (nx, nky) = All-IsNonzero_split xs (k ∷ ys) h.nonzero in
    rw (erase_split k xs ys n) (record {
      array = rw h.array (release_slots_held k xs ys _ nk n nx) ∙ pad_shift xs ys k h.fits;
      fits = omega (arith, one_fewer xs ys k, h.fits);
      distinct = Distinct-remove xs k ys h.distinct;
      nonzero = All-append IsNonzero xs ys nx nky.1;
    })

-- The key is held: a press changes nothing, and a release takes it out.
slots_held :
    (k : ℕ) (press : Bool) (keys held : List ℕ)
    → k ≢ 0
    → Holds keys held
    → contains held k ≡ true
    → Shows (slots k press keys) (hold k press held)
slots_held k press keys held nk h c =
    let (xs, ys, e, n) = contains_split k held c in
    subst (λ l. Shows (slots k press keys) (hold k press l)) (sym e)
      (split_held k press keys xs ys nk (subst (Holds keys) e h) n)

room_for :
    (held : List ℕ)
    → length held < 6
    → replicate {A = ℕ} (6 - length held) 0 ≡ replicate (suc (5 - length held)) 0
room_for held h = let e : 6 - length held ≡ suc (5 - length held) = omega arith in rw e

pad_snoc :
    (held : List ℕ) (k : ℕ)
    → length held < 6
    → held ++ (k ∷ replicate (5 - length held) 0) ≡ pad (held ++ (k ∷ []))
pad_snoc held k h =
    let e : 6 - length (held ++ (k ∷ [])) ≡ 5 - length held =
      omega (arith, length-append held (k ∷ [])) in
    rw e (sym (append_assoc held (k ∷ []) (replicate (5 - length held) 0)))

slots_free :
    (k : ℕ) (press : Bool) (keys held : List ℕ)
    → k ≢ 0
    → Holds keys held
    → contains held k ≡ false
    → length held < 6
    → Shows (slots k press keys) (hold k press held)
unfolding hold
slots_free k true keys held nk h c room =
    rw (c, ==_ne (length held) 6 (λ e. omega arith))
      (record {
        array =
            rw (h.array, room_for held room)
              (press_slots_free k _ held c h.nonzero ∙ pad_snoc held k room);
        fits = omega (arith, length-append held (k ∷ []));
        distinct = Distinct-snoc held k h.distinct c;
        nonzero = All-append IsNonzero held (k ∷ []) h.nonzero (nk, tt);
      })
slots_free k false keys held nk h c room =
    rw (erase_absent k held c) (subst (λ l. Holds l held) same h)
  where
    same : keys ≡ slots k false keys
    same = rw (h.array, room_for held room) (sym (release_slots_free k _ held c h.nonzero))

slots_full :
    (k : ℕ) (press : Bool) (keys held : List ℕ)
    → Holds keys held
    → contains held k ≡ false
    → length held ≡ 6
    → Shows (slots k press keys) (hold k press held)
unfolding hold apply_slot
slots_full k true keys held h c full =
    rw (c, full, whole, find_slot_full k 0 held c h.nonzero)
      (map_const held ∙ ap (λ n. replicate n 0x01) full)
  where
    whole : keys ≡ held
    whole = h.array ∙ rw full (append-nil held)
slots_full k false keys held h c full =
    rw (whole, find_slot_full k 0 held c h.nonzero, erase_absent k held c)
      (subst (λ l. Holds l held) whole h)
  where
    whole : keys ≡ held
    whole = h.array ∙ rw full (append-nil held)

apply_keypress_key :
    (s : KeysDownState) (key : ℕ) (press : Bool)
    → key ≢ 0
    → modifier_mask key ≡ none
    → apply_keypress s key press ≡ record s { keys = slots key press s.keys }
unfolding apply_keypress
apply_keypress_key s key press nk m = ground arith

-- While the array shows the keys held, an event of a key that is neither 0 nor a modifier does to the array
-- what it does to that list: a press adds the key behind the others unless it is held, and fills the array
-- with 0x01 when six others are; a release takes the key out and closes the gap. The modifier byte stays.
pub apply_keypress-hold :
    (s : KeysDownState) (held : List ℕ) (key : ℕ) (press : Bool)
    → Holds s.keys held
    → key ≢ 0
    → modifier_mask key ≡ none
    → Shows (apply_keypress s key press).keys (hold key press held)
      × ((apply_keypress s key press).modifier ≡ s.modifier)
apply_keypress-hold s held key press h nk m = rw (apply_keypress_key s key press nk m) (
  elim (Bool-cases (contains held key)) [
    | inl c ↦ slots_held key press s.keys held nk h c
    | inr c ↦ elim (Bool-cases (length held == 6)) [
      | inl full ↦ slots_full key press s.keys held h c ((==_iff _ _).0 full)
      | inr room ↦ slots_free key press s.keys held nk h c (ground (arith, h.fits))
    ]
  ],
  refl,
)

rollover_slots :
    (key : ℕ) (press : Bool) → key ≢ 0x01 → slots key press (replicate 6 0x01) ≡ replicate 6 0x01
unfolding apply_slot find_slot
rollover_slots key press n = rw (==_ne 0x01 key (λ e. n (sym e))) (press_or_release press)
  where
    press_or_release : (b : Bool) → apply_slot key b (replicate 6 0x01) none ≡ replicate 6 0x01
    press_or_release true = refl
    press_or_release false = refl

-- Once the array is filled with 0x01, no press and no release of a key other than 0x01 changes it again:
-- the keys whose releases follow stay reported until a whole keyboard report replaces them.
pub rollover_sticks :
    (s : KeysDownState) (key : ℕ) (press : Bool)
    → s.keys ≡ replicate 6 0x01
    → key ≢ 0x01
    → (apply_keypress s key press).keys ≡ replicate 6 0x01
unfolding apply_keypress
rollover_sticks s key press full n =
    ground (arith, rollover_slots key press n, ap (slots key press) full)

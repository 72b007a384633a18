-- ===== src/Hid/Slots.antt =====
-- app/src/hardware/usb/hid.rs: the search, the store and the removal on the six-slot array.
use rustkvm.Common.{
  ℕ, suc, ◌+◌, ◌-◌, ◌≡◌, ◌≢◌, refl, ap, ◌∙◌, List, [], ◌∷◌, ◌++◌, true, false, ◌||◌, ◌==◌, ==_refl,
  ==_ne, ==_iff, length, length-append, set, set-append, replicate, contains, none, some,
  append_assoc, arith, Bool-cases, inl, inr,
}
use native.Mathlib.Nat.{zero-add, suc-add, add-zero}
use rustkvm.Common.Predicates.{All}
use rustkvm.Hid.Keys.{find_slot, at, shift_down, apply_slot}
use rustkvm.Hid.Held.{IsNonzero, erase}

find_slot-append :
    (key i : ℕ) (xs : List ℕ) (x : ℕ) (rest : List ℕ)
    → contains xs key ≡ false
    → All IsNonzero xs
    → (x == key || x == 0) ≡ true
    → find_slot key i (xs ++ (x ∷ rest)) ≡ some (i + length xs)
unfolding find_slot
find_slot-append key i [] x rest h nz e = ground arith
find_slot-append key i (y ∷ xs) x rest h nz e =
    ground (arith, find_slot-append key (i + 1) xs x rest (ground arith) nz.1 e)

pub find_slot_full :
    (key i : ℕ) (xs : List ℕ)
    → contains xs key ≡ false
    → All IsNonzero xs
    → find_slot key i xs ≡ none
unfolding find_slot
find_slot_full key i [] h nz = refl
find_slot_full key i (y ∷ xs) h nz =
    ground (arith, find_slot_full key (i + 1) xs (ground arith) nz.1)

pub at-append : (xs : List ℕ) (i : ℕ) (ys : List ℕ) → at (xs ++ ys) (length xs + i) ≡ at ys i
at-append [] i ys = rw zero-add
at-append (x ∷ xs) i ys = rw suc-add (at-append xs i ys)

last_of : ℕ → List ℕ → ℕ
last_of x [] = x
last_of x (y ∷ ys) = last_of y ys

-- The loop moves what stands behind slot `length xs` down by one; the last slot keeps its value.
shift_down-append :
    (ys xs : List ℕ) (x : ℕ)
    → shift_down (length ys) (length xs) (xs ++ (x ∷ ys)) ≡ xs ++ (ys ++ (last_of x ys ∷ []))
unfolding shift_down last_of
shift_down-append [] xs x = refl
shift_down-append (y ∷ ys) xs x =
    ap (shift_down (length ys) (length xs + 1)) moved
    ∙ rw (← append_assoc xs (y ∷ []) (y ∷ ys), len)
        (shift_down-append ys (xs ++ (y ∷ [])) y ∙ append_assoc xs (y ∷ []) _)
  where
    moved :
        set (xs ++ (x ∷ y ∷ ys)) (length xs) (at (xs ++ (x ∷ y ∷ ys)) (length xs + 1))
        ≡ xs ++ (y ∷ y ∷ ys)
    moved = rw (at-append xs 1 (x ∷ y ∷ ys)) (set-append xs x (y ∷ ys) y)

    len : length xs + 1 ≡ length (xs ++ (y ∷ []))
    len = omega (arith, length-append xs (y ∷ []))

-- The removal branch at the slot of `x`: the slots behind it move down, and the last becomes 0.
pub remove_slot :
    (xs : List ℕ) (x : ℕ) (ys : List ℕ)
    → x ≢ 0
    → apply_slot x false (xs ++ (x ∷ ys)) (some (length xs)) ≡ xs ++ (ys ++ (0 ∷ []))
unfolding apply_slot
remove_slot xs x ys h =
    rw (found, ==_ne x 0 h, rounds, shift_down-append ys xs x, last)
      (rw (← append_assoc xs ys (last_of x ys ∷ []))
        (set-append (xs ++ ys) (last_of x ys) [] 0 ∙ append_assoc xs ys (0 ∷ [])))
  where
    found : at (xs ++ (x ∷ ys)) (length xs) ≡ x
    found = rw (← add-zero (length xs)) (at-append xs 0 (x ∷ ys))

    rounds : length (xs ++ (x ∷ ys)) - 1 - length xs ≡ length ys
    rounds = omega (arith, length-append xs (x ∷ ys))

    last : length (xs ++ (x ∷ ys)) - 1 ≡ length (xs ++ ys)
    last = omega (arith, length-append xs (x ∷ ys), length-append xs ys)

pub contains_split :
    (k : ℕ) (held : List ℕ)
    → contains held k ≡ true
    → (xs : List ℕ) × (ys : List ℕ) × (held ≡ xs ++ (k ∷ ys)) × (contains xs k ≡ false)
contains_split k [] h = cc
contains_split k (x ∷ held) h = elim (Bool-cases (x == k)) [
  | inl e ↦ ([], held, ap (λ y. y ∷ held) ((==_iff x k).0 e), refl)
  | inr e ↦
      let (xs, ys, q, n) = contains_split k held (ground arith) in
      (x ∷ xs, ys, ap (λ l. x ∷ l) q, ground arith)
]

pub erase_split :
    (k : ℕ) (xs ys : List ℕ) → contains xs k ≡ false → erase k (xs ++ (k ∷ ys)) ≡ xs ++ ys
erase_split k [] ys h = rw ==_refl
erase_split k (x ∷ xs) ys h = ground (arith, erase_split k xs ys (ground arith))

pub erase_absent : (k : ℕ) (xs : List ℕ) → contains xs k ≡ false → erase k xs ≡ xs
erase_absent k [] h = refl
erase_absent k (x ∷ xs) h = ground (arith, erase_absent k xs (ground arith))

pub All-IsNonzero_split :
    (xs ys : List ℕ) → All IsNonzero (xs ++ ys) → All IsNonzero xs × All IsNonzero ys
All-IsNonzero_split [] ys h = (tt, h)
All-IsNonzero_split (x ∷ xs) ys h = let (a, b) = All-IsNonzero_split xs ys h.1 in ((h.0, a), b)

-- Pressing a key that is already down changes no slot.
pub press_held :
    (xs ys : List ℕ) (k : ℕ)
    → apply_slot k true (xs ++ (k ∷ ys)) (some (length xs)) ≡ xs ++ (k ∷ ys)
unfolding apply_slot
press_held xs ys k = set-append xs k ys k

-- The slot that the search finds in an array that holds `held`.
pub find_held :
    (k : ℕ) (xs ys zeros : List ℕ)
    → contains xs k ≡ false
    → All IsNonzero xs
    → find_slot k 0 ((xs ++ (k ∷ ys)) ++ zeros) ≡ some (length xs)
find_held k xs ys zeros h nz =
    rw (append_assoc xs (k ∷ ys) zeros)
      (find_slot-append k 0 xs k (ys ++ zeros) h nz (ground arith) ∙ rw zero-add)

pub find_free :
    (k n : ℕ) (held : List ℕ)
    → contains held k ≡ false
    → All IsNonzero held
    → find_slot k 0 (held ++ replicate (suc n) 0) ≡ some (length held)
find_free k n held h nz =
    find_slot-append k 0 held 0 (replicate n 0) h nz (ground arith) ∙ rw zero-add

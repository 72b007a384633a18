-- ===== src/Hid/Held.antt =====
-- app/src/hardware/usb/hid.rs: the list of the keys held, as the six-slot array shows it.
use rustkvm.Common.{
  ℕ, ◌-◌, ◌≤◌, ◌≡◌, ◌≢◌, List, [], ◌∷◌, ◌++◌, Bool, true, false, if◌then◌else◌, ◌==◌, length,
  replicate, contains, Distinct, none, some, Option,
}
use rustkvm.Common.Predicates.{All}

abbrev pub IsNonzero : ℕ → Type 0
IsNonzero k = k ≢ 0

-- The array holds the keys down in the order in which they were pressed, each once, and then zeros.
pub record Holds (keys held : List ℕ) : Type 0 where
  pub array : keys ≡ held ++ replicate (6 - length held) 0
  pub fits : length held ≤ 6
  pub distinct : Distinct held
  pub nonzero : All IsNonzero held

-- The list without the first occurrence of the key.
abbrev pub erase : ℕ → List ℕ → List ℕ
erase k [] = []
erase k (x ∷ xs) = if x == k then xs else x ∷ erase k xs

-- What a key event does to the list of the keys held; `none` is the rollover report.
unfoldable pub hold : ℕ → Bool → List ℕ → Option (List ℕ)
hold k true held =
    if contains held k
    then some held
    else if length held == 6
    then none
    else some (held ++ (k ∷ []))
hold k false held = some (erase k held)

-- The array that stands for the keys held; in a rollover each slot is 0x01.
abbrev pub Shows : List ℕ → Option (List ℕ) → Type 0
Shows keys (some held) = Holds keys held
Shows keys none = keys ≡ replicate 6 0x01

-- ===== src/Vision/Lines.antt =====
-- crates/rkvm-vision/src/rec.rs: the cut of a wide line into segments. A column is blank or not; an index
-- out of range, which the source would not survive, counts as a column that is not blank.
use rustkvm.Common.{
  ℕ, zero, suc, ◌+◌, ◌-◌, ◌/◌, max, List, [], ◌∷◌, Option, none, some, Bool, true, false, length,
  drop, if◌then◌else◌, leb,
}

pub record Segment : Type 0 where
  pub start : ℕ
  pub end : ℕ
  pub space_before : Bool

abbrev pub is_blank : List Bool → ℕ → Bool
is_blank [] i = false
is_blank (b ∷ bs) zero = b
is_blank (b ∷ bs) (suc i) = is_blank bs i

-- How many columns a list begins with that are blank.
abbrev pub leading : List Bool → ℕ
leading [] = 0
leading (true ∷ bs) = suc (leading bs)
leading (false ∷ bs) = 0

-- `while i < n && blank[i] { i += 1 }`.
abbrev pub skip_blank : List Bool → ℕ → ℕ
skip_blank blank i = i + leading (drop i blank)

-- `while g > start && blank[g - 1] { g -= 1 }` from `start + k`.
abbrev pub back_to : List Bool → ℕ → ℕ → ℕ
back_to blank start zero = start
back_to blank start (suc k) =
    let further = back_to blank start k in
    if is_blank blank (start + k) then further else start + suc k

-- The last blank column of the `k` from `low` on.
abbrev pub find_last : List Bool → ℕ → ℕ → Option ℕ
find_last blank low zero = none
find_last blank low (suc k) =
    let before = find_last blank low k in
    if is_blank blank (low + k) then some (low + k) else before

abbrev pub push : Segment → Option (List Segment) → Option (List Segment)
push s none = none
push s (some ss) = some (s ∷ ss)

-- The loop of `split_line` from a column on; `none` when the fuel runs out.
unfoldable pub split_from : ℕ → List Bool → ℕ → ℕ → ℕ → Bool → Option (List Segment)
split_from zero blank max_width space_min start0 space_before = none
split_from (suc fuel) blank max_width space_min start0 space_before =
    let n = length blank in
    let start = skip_blank blank start0 in
    let limit = start + max_width in
    let earliest = start + max_width / 2 in
    let cut : Segment = record { start = start; end = limit; space_before = space_before } in
    let hard = push cut (split_from fuel blank max_width space_min limit false) in
    if leb n start
    then some []
    else if leb (n - start) max_width
    then some (record { start = start; end = n; space_before = space_before } ∷ [])
    else elim (find_last blank earliest (limit + 1 - earliest)) [
      | none ↦ hard
      | some c ↦
          let gap_start = back_to blank start (c - start) in
          let gap_end = skip_blank blank c in
          push (record { start = start; end = gap_start; space_before = space_before })
            (split_from fuel blank max_width space_min gap_end
              (leb space_min (gap_end - gap_start)))
    ]

-- `split_line`; every round moves the column on.
unfoldable pub split_line : List Bool → ℕ → ℕ → Option (List Segment)
unfolding split_from
split_line blank max_width space_min =
    split_from (length blank + 1) blank (max max_width 1) space_min 0 false

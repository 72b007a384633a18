-- ===== src/Vision/Cover.antt =====
-- crates/rkvm-vision/src/rec.rs: the segments of a line.
use rustkvm.Common.{
  ℕ, zero, suc, ◌+◌, ◌-◌, ◌/◌, ◌≤◌, ◌<◌, ◌≡◌, max, List, [], ◌∷◌, Option, some, Bool, false, length,
  leb, arith, refl, ap, Bool-cases, Option-cases, inl, inr,
}
use rustkvm.Vision.Lines.{Segment, skip_blank, back_to, find_last, push, split_from, split_line}
use rustkvm.Vision.Columns.{
  IsBlank, IsBlank-join, skip_blank-IsBlank, skip_blank-stop, find_last-some, gap_bounds,
}

-- The segments of a line from a column on: in their order, not empty, at most `width` columns wide and within
-- the line, and every column outside them is blank.
abbrev pub IsCut : List Bool → ℕ → ℕ → List Segment → Type 0
IsCut blank width from [] = IsBlank blank from (length blank)
IsCut blank width from (s ∷ ss) =
    (from ≤ s.start)
    × IsBlank blank from s.start
    × (s.start < s.end)
    × (s.end ≤ length blank)
    × (s.end ≤ s.start + width)
    × IsCut blank width s.end ss

-- Blank columns may stand before the segments.
IsCut-before :
    (blank : List Bool) (width a b : ℕ) (ss : List Segment)
    → a ≤ b
    → IsBlank blank a b
    → IsCut blank width b ss
    → IsCut blank width a ss
IsCut-before blank width a b [] le gap h = IsBlank-join blank a b (length blank) gap h
IsCut-before blank width a b (s ∷ ss) le gap (after, front, some_columns, inside, narrow, h) =
    (omega arith, IsBlank-join blank a b s.start gap front, some_columns, inside, narrow, h)

-- A result that is segments of the line from a column on.
abbrev pub Cuts : List Bool → ℕ → ℕ → Option (List Segment) → Type 0
Cuts blank width from r = (ss : List Segment) × (r ≡ some ss) × IsCut blank width from ss

push-Cuts :
    (blank : List Bool) (width from : ℕ) (s : Segment) (r : Option (List Segment))
    → from ≤ s.start
    → IsBlank blank from s.start
    → s.start < s.end
    → s.end ≤ length blank
    → s.end ≤ s.start + width
    → Cuts blank width s.end r
    → Cuts blank width from (push s r)
push-Cuts blank width from s r a b c d e (ss, same, h) =
    (s ∷ ss, ap (push s) same, (a, b, c, d, e, h))

Cuts-before :
    (blank : List Bool) (width a b : ℕ) (r : Option (List Segment))
    → a ≤ b
    → IsBlank blank a b
    → Cuts blank width b r
    → Cuts blank width a r
Cuts-before blank width a b r le gap (ss, same, h) =
    (ss, same, IsCut-before blank width a b ss le gap h)

split_from-Cuts :
    (fuel : ℕ) (blank : List Bool) (width space_min from : ℕ) (space_before : Bool)
    → 0 < width
    → from ≤ length blank
    → length blank < from + fuel
    → Cuts blank width from (split_from fuel blank width space_min from space_before)
unfolding split_from
split_from-Cuts zero blank width space_min from space_before wide inside enough =
    absurd (omega arith)
split_from-Cuts (suc fuel) blank width space_min from space_before wide inside enough =
    let n = length blank in
    let start = skip_blank blank from in
    let front = skip_blank-IsBlank blank from in
    let stop = skip_blank-stop blank from in
    let after : from ≤ start = omega arith in
    elim (Bool-cases (leb n start)) [
      | inl past ↦
          let no_more : n ≤ start = ground (arith, past) in
          rw past ([], refl, λ i low high. front i low (omega arith))
      | inr more ↦
          let before : start < n = ground (arith, more) in
          elim (Bool-cases (leb (n - start) width)) [
            | inl fits ↦
                let narrow : n ≤ start + width = ground (arith, fits) in
                rw (more, fits)
                  (
                    record { start = start; end = n; space_before = space_before } ∷ [],
                    refl,
                    (after, front, before, omega arith, narrow, λ i low high. absurd (omega arith)),
                  )
            | inr wider ↦
                let room : start + width < n = ground (arith, wider) in
                elim (Option-cases
                  (find_last blank (start + width / 2) (start + width + 1 - (start + width / 2)))) [
                    | inl nowhere ↦
                        rw (more, wider, nowhere)
                          (push-Cuts blank width from _ _ after front (omega arith) (omega arith)
                            (omega arith)
                            (split_from-Cuts fuel blank width space_min (start + width) false wide
                              (omega arith) (omega arith)))
                    | inr (c, found) ↦
                        let (low, high, gap) =
                          find_last-some blank (start + width / 2)
                            (start + width + 1 - (start + width / 2)) c found in
                        let (later, before_gap, moved, within, columns) =
                          gap_bounds blank start c stop gap (omega arith) (omega arith) in
                        let rest =
                          split_from-Cuts fuel blank width space_min (skip_blank blank c)
                            (leb space_min (skip_blank blank c - back_to blank start (c - start)))
                            wide within (omega arith) in
                        rw (more, wider, found)
                          (push-Cuts blank width from _ _ after front later (omega arith)
                            (omega arith)
                            (Cuts-before blank width (back_to blank start (c - start))
                              (skip_blank blank c) _ (omega arith) columns rest))
                  ]
          ]
    ]

-- The cut of a line of any columns ends. Its segments are in their order, not empty, at most as wide as the
-- recognizer accepts (one column where that is 0) and within the line, and every column outside them is
-- blank.
pub split_line-Cuts :
    (blank : List Bool) (max_width space_min : ℕ)
    → (ss : List Segment) × (split_line blank max_width space_min ≡ some ss)
      × IsCut blank (max max_width 1) 0 ss
unfolding split_line
split_line-Cuts blank max_width space_min =
    split_from-Cuts (length blank + 1) blank (max max_width 1) space_min 0 false (omega arith)
      (omega arith) (omega arith)

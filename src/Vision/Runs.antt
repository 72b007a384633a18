-- ===== src/Vision/Runs.antt =====
-- Concrete tiles and lines.
use rustkvm.Common.{arith, ◌≡◌, refl, List, [], ◌∷◌, some, Bool, true, false}
use rustkvm.Vision.Lines.{Segment, split_line}
use rustkvm.Vision.Cover.{IsCut, split_line-Cuts}
use rustkvm.Vision.{axis_positions}
use rustkvm.Vision.Tiles.{IsCover, axis_positions-IsCover}

axis_positions-IsCover_example : IsCover 64 1080 (axis_positions 1080 640 64)
axis_positions-IsCover_example = axis_positions-IsCover 1080 640 64 (omega arith) (omega arith)

-- A line of ten columns that is cut at its gap.
abbrev columns : List Bool
columns = true ∷ false ∷ false ∷ true ∷ true ∷ false ∷ false ∷ false ∷ false ∷ true ∷ []

split_line-Cuts_example :
    (ss : List Segment) × (split_line columns 4 2 ≡ some ss) × IsCut columns 4 0 ss
split_line-Cuts_example = split_line-Cuts columns 4 2

columns_cut :
    split_line columns 4 2
    ≡ some (
        record { start = 1; end = 3; space_before = false }
        ∷ record { start = 5; end = 9; space_before = true }
        ∷ [])
unfolding split_line
columns_cut = refl

-- ===== src/Vision.antt =====
-- crates/rkvm-proto/src/vision.rs and crates/rkvm-vision/src: the integer geometry of text recognition. A `u32` is
-- a number below 2 ^ 32, a `usize` a number.
pub mod Columns
pub mod Cover
pub mod Geometry
pub mod Lines
pub mod Tiles
mod Runs
use rustkvm.Common.{
  ℕ, zero, suc, ◌+◌, ◌-◌, ◌*◌, ◌/◌, List, [], ◌∷◌, ◌++◌, Bool, true, false, not, ◌&&◌, ◌||◌,
  if◌then◌else◌, ltb, leb, ◌==◌, length, min, max, map, Option, none, some,
}

pub record Rect : Type 0 where
  pub x : ℕ
  pub y : ℕ
  pub width : ℕ
  pub height : ℕ

-- `saturating_add` on a `u32`.
abbrev pub saturating_add : ℕ → ℕ → ℕ
saturating_add a b = min (a + b) 4294967295

unfoldable pub right : Rect → ℕ
right r = saturating_add r.x r.width

unfoldable pub bottom : Rect → ℕ
bottom r = saturating_add r.y r.height

unfoldable pub clamp_to : ℕ → ℕ → Rect → Option Rect
unfolding right bottom
clamp_to width height r =
    let x = min r.x width in
    let y = min r.y height in
    let right = min (right r) width in
    let bottom = min (bottom r) height in
    if ltb x right && ltb y bottom
    then some (record { x = x; y = y; width = right - x; height = bottom - y })
    else none

-- The narrowest width that fits: `find`, or else the last one.
abbrev pub last_of : List ℕ → Option ℕ
last_of [] = none
last_of (w ∷ []) = some w
last_of (w ∷ v ∷ widths) = last_of (v ∷ widths)

abbrev pub find_width : ℕ → List ℕ → Option ℕ
find_width needed [] = none
find_width needed (w ∷ widths) = if leb needed w then some w else find_width needed widths

unfoldable pub pick_width : List ℕ → ℕ → Option ℕ
pick_width widths needed = elim (find_width needed widths) [
  | some w ↦ some w
  | none ↦ last_of widths
]

-- `abs_diff` on bytes.
abbrev pub abs_diff : ℕ → ℕ → ℕ
abs_diff a b = (a - b) + (b - a)

abbrev pub any_moved : ℕ → List ℕ → List ℕ → Bool
any_moved threshold (x ∷ a) (y ∷ b) = ltb threshold (abs_diff x y) || any_moved threshold a b
any_moved threshold _ _ = false

unfoldable pub grid_changed : List ℕ → List ℕ → ℕ → Bool
grid_changed a b threshold = not (length a == length b) || any_moved threshold a b

-- `div_ceil`.
abbrev pub div_ceil : ℕ → ℕ → ℕ
div_ceil a b = (a + (b - 1)) / b

-- The number of positions of a tile that does not cover the axis, and the place of the `i`-th.
unfoldable pub tile_count : ℕ → ℕ → ℕ → ℕ
tile_count len tile overlap = max (div_ceil (len - min overlap len) (max (tile - overlap) 1)) 2

unfoldable pub tile_at : ℕ → ℕ → ℕ → ℕ
tile_at span count i = (span * i + (count - 1) / 2) / (count - 1)

abbrev pub positions : ℕ → ℕ → ℕ → ℕ → ℕ → List (ℕ × ℕ)
positions span count tile i zero = []
positions span count tile i (suc n) =
    (tile_at span count i, tile) ∷ positions span count tile (i + 1) n

unfoldable pub axis_positions : ℕ → ℕ → ℕ → List (ℕ × ℕ)
unfolding tile_count tile_at
axis_positions len tile overlap =
    if len == 0 || tile == 0
    then []
    else if leb len tile
    then (0, len) ∷ []
    else (let count = tile_count len tile overlap in positions (len - tile) count tile 0 count)

abbrev pub tile_row : ℕ × ℕ → List (ℕ × ℕ) → List Rect
tile_row (y, h) xs = map (λ p. record { x = p.0; y = y; width = p.1; height = h }) xs

abbrev pub tile_rows : List (ℕ × ℕ) → List (ℕ × ℕ) → List Rect
tile_rows [] xs = []
tile_rows (p ∷ ys) xs = tile_row p xs ++ tile_rows ys xs

unfoldable pub plan_tiles : ℕ → ℕ → ℕ → ℕ → ℕ → List Rect
unfolding axis_positions
plan_tiles width height tile_w tile_h overlap =
    tile_rows (axis_positions height tile_h overlap) (axis_positions width tile_w overlap)

-- ===== src/Vision/Tiles.antt =====
-- crates/rkvm-vision/src/det.rs: the tiles of an axis.
use native.Mathlib.Nat.{
  add-mul-div_left, lt-div-mul-add, div-eq_of_lt, mul-add-div_right, add-mul, mul-add,
  mul-le-mul_right, le-div_iff_mul-le, div-mul-le_self,
}
use mathlib.Core.Path.{subst}
use rustkvm.Common.{
  ℕ, zero, suc, ◌+◌, ◌-◌, ◌*◌, ◌/◌, ◌≤◌, ◌<◌, ◌≡◌, refl, sym, ap, ◌∙◌, List, [], ◌∷◌, leb, min, max,
  arith, Bool-cases, inl, inr,
}
use rustkvm.Vision.{tile_count, tile_at, positions, axis_positions, div_ceil}

-- The tiles go on to the end of the axis, each next one at least `overlap` before the end of the last.
abbrev pub Linked : ℕ → ℕ → List (ℕ × ℕ) → Type 0
Linked overlap len [] = ⊥
Linked overlap len ((p, w) ∷ []) = p + w ≡ len
Linked overlap len ((p, w) ∷ (q, v) ∷ rest) =
    (q + overlap ≤ p + w) × Linked overlap len ((q, v) ∷ rest)

abbrev pub FromZero : List (ℕ × ℕ) → Type 0
FromZero [] = ⊥
FromZero ((p, w) ∷ rest) = p ≡ 0

ceil_covers : (m step : ℕ) → 0 < step → m ≤ div_ceil m step * step
ceil_covers m step h =
    let q : m + (step - 1) < (m + (step - 1)) / step * step + step = lt-div-mul-add h in omega arith

pred_covers : (m step q n : ℕ) → m ≤ q * step → q ≤ n + 1 → m - step ≤ n * step
pred_covers m step q n h k =
    omega (arith, add-mul n 1 step, mul-le-mul_right {m = q} {n = n + 1} step k, h)

steps_cover :
    (len tile overlap : ℕ)
    → overlap < tile
    → tile < len
    → len - tile ≤ (tile_count len tile overlap - 1) * (tile - overlap)
unfolding tile_count
steps_cover len tile overlap h k =
    let one : max (tile - overlap) 1 ≡ tile - overlap = omega arith in
    let m : len - min overlap len ≡ len - overlap = omega arith in
    let c = ceil_covers (len - overlap) (tile - overlap) (omega arith) in
    let p =
      pred_covers (len - overlap) (tile - overlap) (div_ceil (len - overlap) (tile - overlap))
        (max (div_ceil (len - overlap) (tile - overlap)) 2 - 1) c (omega arith) in
    rw (one, m) (omega (arith, p))

half : (d : ℕ) → 0 < d → d / 2 < d
half d h = omega arith

first_tile : (span d : ℕ) → 0 < d → (span * 0 + d / 2) / d ≡ 0
first_tile span d h =
    let e : span * 0 + d / 2 ≡ d / 2 = omega arith in
    let z : (d / 2) / d ≡ 0 = div-eq_of_lt (half d h) in ap (λ x. x / d) e ∙ z

last_tile : (span d : ℕ) → 0 < d → (span * d + d / 2) / d ≡ span
last_tile span d h =
    let e = mul-add-div_right h span (d / 2) in
    let z : (d / 2) / d ≡ 0 = div-eq_of_lt (half d h) in omega (arith, e, z)

next_tile :
    (span d step i : ℕ)
    → 0 < d
    → span ≤ d * step
    → (span * (i + 1) + d / 2) / d ≤ (span * i + d / 2) / d + step
next_tile span d step i h k =
    let a = span * (i + 1) + d / 2 in
    let b = span * i + d / 2 + d * step in
    let below : a ≤ b = omega (arith, mul-add span i 1, k) in
    let down : a / d * d ≤ a = div-mul-le_self a d in
    let up : a / d ≤ b / d = (le-div_iff_mul-le h).1 (omega (arith, below, down)) in
    let e : b / d ≡ (span * i + d / 2) / d + step = add-mul-div_left _ step h in
    omega (arith, up, e)

positions-Linked :
    (span count tile overlap i n : ℕ)
    → 1 < count
    → overlap < tile
    → span ≤ (count - 1) * (tile - overlap)
    → i + suc n ≡ count
    → Linked overlap (span + tile) (positions span count tile i (suc n))
unfolding tile_at
positions-Linked span count tile overlap i zero c h k e =
    let last : i ≡ count - 1 = omega arith in
    let z = last_tile span (count - 1) (omega arith) in rw (last, z) refl
positions-Linked span count tile overlap i (suc n) c h k e =
    let step = next_tile span (count - 1) (tile - overlap) i (omega arith) k in
    (omega (arith, step), positions-Linked span count tile overlap (i + 1) n c h k (omega arith))

positions_from :
    (span count tile overlap len n : ℕ)
    → 1 < count
    → overlap < tile
    → span ≤ (count - 1) * (tile - overlap)
    → suc n ≡ count
    → span + tile ≡ len
    → FromZero (positions span count tile 0 (suc n))
      × Linked overlap len (positions span count tile 0 (suc n))
unfolding tile_at
positions_from span count tile overlap len n c h k e l = (
  first_tile span (count - 1) (omega arith),
  subst (λ x. Linked overlap x (positions span count tile 0 (suc n))) l
      (positions-Linked span count tile overlap 0 n c h k (omega arith)),
)

-- The tiles begin at 0, and are linked up to the end.
abbrev pub IsCover : ℕ → ℕ → List (ℕ × ℕ) → Type 0
IsCover overlap len tiles = FromZero tiles × Linked overlap len tiles

one_tile :
    (len tile overlap : ℕ) → 0 < len → len ≤ tile → axis_positions len tile overlap ≡ (0, len) ∷ []
unfolding axis_positions
one_tile len tile overlap h k = ground arith

many_tiles :
    (len tile overlap : ℕ)
    → 0 < tile
    → tile < len
    → axis_positions len tile overlap
      ≡ positions (len - tile) (tile_count len tile overlap) tile 0 (tile_count len tile overlap)
unfolding axis_positions
many_tiles len tile overlap h k = ground arith

tile_count_two : (len tile overlap : ℕ) → 1 < tile_count len tile overlap
unfolding tile_count
tile_count_two len tile overlap = omega arith

positions-IsCover :
    (len tile overlap count n : ℕ)
    → suc n ≡ count
    → 1 < count
    → overlap < tile
    → tile < len
    → len - tile ≤ (count - 1) * (tile - overlap)
    → IsCover overlap len (positions (len - tile) count tile 0 count)
positions-IsCover len tile overlap count n e c h k s =
    subst (λ x. IsCover overlap len (positions (len - tile) count tile 0 x)) e
      (positions_from (len - tile) count tile overlap len n c h s e (omega arith))

-- An axis is covered from its beginning to its end by tiles of which each next one begins at least `overlap`
-- before the end of the last, when the overlap is less than a tile.
pub axis_positions-IsCover :
    (len tile overlap : ℕ)
    → 0 < len
    → overlap < tile
    → IsCover overlap len (axis_positions len tile overlap)
axis_positions-IsCover len tile overlap h k = elim (Bool-cases (leb len tile)) [
  | inl e ↦
      let small : len ≤ tile = ground arith in
      subst (IsCover overlap len) (sym (one_tile len tile overlap h small)) (refl, omega arith)
  | inr e ↦
      let large : tile < len = ground arith in
      let count = tile_count len tile overlap in
      let two = tile_count_two len tile overlap in
      subst (IsCover overlap len) (sym (many_tiles len tile overlap (omega arith) large)) (
        positions-IsCover len tile overlap count (count - 1) (omega (arith, two)) two k large
          (steps_cover len tile overlap k large))
]

-- ===== src/Vision/Geometry.antt =====
-- crates/rkvm-proto/src/vision.rs: the part of a rectangle inside a frame, pixel by pixel.
use rustkvm.Common.{ℕ, ◌+◌, ◌<◌, ◌≡◌, Bool, false, ◌&&◌, ltb, leb, Option, none, some, arith}
use rustkvm.Vision.{Rect, right, bottom, clamp_to}

-- Whether a pixel lies in the rectangle.
abbrev pub has_pixel : Rect → ℕ → ℕ → Bool
has_pixel r px py = leb r.x px && ltb px (r.x + r.width) && leb r.y py && ltb py (r.y + r.height)

abbrev pub covers : Option Rect → ℕ → ℕ → Bool
covers none px py = false
covers (some r) px py = has_pixel r px py

-- The clamped rectangle has exactly the pixels of the rectangle that lie in the frame, and there is none
-- when no pixel does.
pub covers-clamp_to :
    (width height : ℕ) (r : Rect) (px py : ℕ)
    → r.x + r.width < 4294967296
    → r.y + r.height < 4294967296
    → covers (clamp_to width height r) px py
      ≡ (has_pixel r px py && (ltb px width && ltb py height))
unfolding clamp_to right bottom
covers-clamp_to width height r px py hx hy = ground arith

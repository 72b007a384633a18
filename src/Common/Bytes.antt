-- ===== src/Common/Bytes.antt =====
-- Big-endian words as bytes, as `to_be_bytes` and `from_be_bytes` read them, and checks of a
-- statement at every byte by evaluation.
use Prim.Native.Nat.{ℕ, zero, suc, ◌+◌, ◌*◌, ◌/◌, ◌%◌, ◌<◌}
use mathlib.Core.Path.{◌≡◌}
use mathlib.Core.Bool.{Bool, true, ◌&&◌}
use mathlib.Core.List.{List, [], ◌∷◌}
use native.Mathlib.Omega.{arith}

-- `u32::to_be_bytes` and `u32::from_be_bytes`.
abbrev pub be_bytes32 : ℕ → List ℕ
be_bytes32 w = w / 16777216 % 256 ∷ w / 65536 % 256 ∷ w / 256 % 256 ∷ w % 256 ∷ []

abbrev pub from_be32 : ℕ → ℕ → ℕ → ℕ → ℕ
from_be32 a b c d = a * 16777216 + b * 65536 + c * 256 + d

-- `u16::from_be_bytes` and its inverse.
abbrev pub from_be16 : ℕ → ℕ → ℕ
from_be16 a b = a * 256 + b

abbrev pub be_bytes16 : ℕ → List ℕ
be_bytes16 w = w / 256 % 256 ∷ w % 256 ∷ []

unfoldable pub all_below : ℕ → (ℕ → Bool) → Bool
all_below zero p = true
all_below (suc n) p = p n && all_below n p

pub all_below_sound :
    (bound : ℕ) (test : ℕ → Bool) (i : ℕ) → all_below bound test ≡ true → i < bound → test i ≡ true
unfolding all_below
all_below_sound zero test i all inside = absurd (omega arith)
all_below_sound (suc bound) test i all inside = ground (arith, all_below_sound bound test i)

pub from_be32-be_bytes32 :
    (w : ℕ)
    → w < 4294967296
    → from_be32 (w / 16777216 % 256) (w / 65536 % 256) (w / 256 % 256) (w % 256) ≡ w
from_be32-be_bytes32 w h = omega arith

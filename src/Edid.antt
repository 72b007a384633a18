-- ===== src/Edid.antt =====
-- app/src/hardware/edid.rs: the bytes that are given to the driver as the EDID.
pub mod Checksum
mod Runs
use rustkvm.Common.{
  ℕ, zero, suc, ◌+◌, ◌-◌, ◌%◌, List, [], ◌∷◌, ◌++◌, Option, none, some, ◌||◌, length, set, take,
  drop, if◌then◌else◌, ◌==◌,
}

-- `fold(0u8, u8::wrapping_add)` from a sum on.
abbrev pub wrapping_sum : ℕ → List ℕ → ℕ
wrapping_sum acc [] = acc
wrapping_sum acc (b ∷ bs) = wrapping_sum ((acc + b) % 256) bs

-- The body of the loop over the blocks; the last byte of a block makes its sum 0.
unfoldable pub fix_block : List ℕ → List ℕ
fix_block block = set block 127 ((256 - wrapping_sum 0 (take 127 block)) % 256)

-- `chunks_mut(128)`, for so many blocks at most.
unfoldable pub fix_blocks : ℕ → List ℕ → List ℕ
unfolding fix_block
fix_blocks zero edid = edid
fix_blocks (suc n) edid = fix_block (take 128 edid) ++ fix_blocks n (drop 128 edid)

-- `fix_edid_checksum` of two blocks at most.
unfoldable pub fix_edid_checksum : List ℕ → List ℕ
unfolding fix_blocks
fix_edid_checksum edid = fix_blocks 2 edid

-- `write_edid`: the bytes that the driver gets, and `none` for a length that is refused.
unfoldable pub write_edid : List ℕ → Option (List ℕ)
unfolding fix_edid_checksum
write_edid edid =
    if length edid == 128 || length edid == 256 then some (fix_edid_checksum edid) else none

-- ===== src/Edid/Runs.antt =====
-- A concrete EDID.
use rustkvm.Common.{ℕ, ◌≡◌, refl, List, ◌++◌, take, drop, length, replicate}
use rustkvm.Edid.{write_edid, fix_edid_checksum, fix_block}
use rustkvm.Edid.Checksum.{IsFixedBlock, write_edid-IsFixedBlock}

abbrev ones : List ℕ
ones = replicate 128 1

write_edid-IsFixedBlock_example :
    (first second : List ℕ) × (fix_edid_checksum ones ≡ first ++ second)
    × (length first ≡ 128)
    × IsFixedBlock (take 128 ones) first
    × IsFixedBlock (drop 128 ones) second
unfolding write_edid
write_edid-IsFixedBlock_example = write_edid-IsFixedBlock ones (fix_edid_checksum ones) refl

summed : fix_block ones ≡ replicate 127 1 ++ replicate 1 129
unfolding fix_block
summed = refl

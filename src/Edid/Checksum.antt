-- ===== src/Edid/Checksum.antt =====
-- app/src/hardware/edid.rs: the checksum of the blocks.
use rustkvm.Common.{
  append-nil, ◌⊎◌, ==_iff, ℕ, zero, suc, ◌+◌, ◌-◌, ◌%◌, ◌≤◌, ◌<◌, ◌≡◌, List, [], ◌∷◌, ◌++◌, none,
  some, Bool, true, false, ◌||◌, length, set, take, drop, length-take, length-drop, length-set,
  take-append, if◌then◌else◌, ◌==◌, arith, refl, ap, ◌∙◌, inl, inr,
}
use rustkvm.Edid.{wrapping_sum, fix_block, fix_blocks, fix_edid_checksum, write_edid}

abbrev pub sum : List ℕ → ℕ
sum [] = 0
sum (b ∷ bs) = b + sum bs

sum-append : (xs ys : List ℕ) → sum (xs ++ ys) ≡ sum xs + sum ys
sum-append [] ys = omega arith
sum-append (x ∷ xs) ys = let rest = sum-append xs ys in omega arith

wrapping_sum-sum : (acc : ℕ) (bs : List ℕ) → wrapping_sum acc bs % 256 ≡ (acc + sum bs) % 256
wrapping_sum-sum acc [] = let same : acc ≡ acc + 0 = omega arith in ap (λ n. n % 256) same
wrapping_sum-sum acc (b ∷ bs) = let rest = wrapping_sum-sum ((acc + b) % 256) bs in omega arith

wrapping_sum-lt : (acc : ℕ) (bs : List ℕ) → acc < 256 → wrapping_sum acc bs < 256
wrapping_sum-lt acc [] h = h
wrapping_sum-lt acc (b ∷ bs) h = wrapping_sum-lt ((acc + b) % 256) bs (omega arith)

-- A write to the last place of a list.
set_last : (n : ℕ) (xs : List ℕ) (v : ℕ) → length xs ≡ suc n → set xs n v ≡ take n xs ++ (v ∷ [])
set_last n [] v h = absurd (omega arith)
set_last zero (x ∷ []) v h = refl
set_last zero (x ∷ y ∷ xs) v h = absurd (omega arith)
set_last (suc n) (x ∷ xs) v h = let rest = set_last n xs v (omega arith) in ap (λ l. x ∷ l) rest

-- A block of 128 bytes of which the sum is 0, as a byte.
abbrev pub IsSummed : List ℕ → Type 0
IsSummed block = sum block % 256 ≡ 0

fix_block-IsSummed : (block : List ℕ) → length block ≡ 128 → IsSummed (fix_block block)
unfolding fix_block
fix_block-IsSummed block h =
    let w = wrapping_sum 0 (take 127 block) in
    let last = set_last 127 block ((256 - w) % 256) h in
    let total = sum-append (take 127 block) ((256 - w) % 256 ∷ []) in
    let wrapped = wrapping_sum-sum 0 (take 127 block) in
    let small = wrapping_sum-lt 0 (take 127 block) (omega arith) in rw (last, total) (omega arith)

fix_block-length : (block : List ℕ) → length (fix_block block) ≡ length block
unfolding fix_block
fix_block-length block = length-set block 127 _

fix_block-take : (block : List ℕ) → length block ≡ 128 → take 127 (fix_block block) ≡ take 127 block
unfolding fix_block
fix_block-take block h =
    let v = (256 - wrapping_sum 0 (take 127 block)) % 256 in
    let last = set_last 127 block v h in
    let short = length-take 127 block in
    let long : 127 ≡ length (take 127 block) = omega arith in
    ap (take 127) last
    ∙ ap (λ n. take n (take 127 block ++ (v ∷ []))) long
    ∙ take-append (take 127 block) (v ∷ [])

take_all : (n : ℕ) (xs : List ℕ) → length xs ≤ n → take n xs ≡ xs
take_all zero [] h = refl
take_all zero (x ∷ xs) h = absurd (omega arith)
take_all (suc n) [] h = refl
take_all (suc n) (x ∷ xs) h = let rest = take_all n xs (omega arith) in ap (λ l. x ∷ l) rest

drop_all : (n : ℕ) (xs : List ℕ) → length xs ≤ n → drop n xs ≡ []
drop_all zero [] h = refl
drop_all zero (x ∷ xs) h = absurd (omega arith)
drop_all (suc n) [] h = refl
drop_all (suc n) (x ∷ xs) h = drop_all n xs (omega arith)

-- A block of the EDID and what is written in its place: as long, with the same bytes but the last, and with
-- the sum 0.
abbrev pub IsFixedBlock : List ℕ → List ℕ → Type 0
IsFixedBlock block fixed =
    (length fixed ≡ length block) × (take 127 fixed ≡ take 127 block) × IsSummed fixed

empty-IsFixedBlock : (block : List ℕ) → length block ≡ 0 → IsFixedBlock block (fix_block block)
unfolding fix_block
empty-IsFixedBlock [] h = (refl, refl, refl)
empty-IsFixedBlock (b ∷ bs) h = absurd (omega arith)

fix_block-IsFixedBlock :
    (block : List ℕ) → length block ≡ 128 → IsFixedBlock block (fix_block block)
fix_block-IsFixedBlock block h =
    (fix_block-length block, fix_block-take block h, fix_block-IsSummed block h)

two_blocks :
    (edid : List ℕ)
    → length edid ≤ 256
    → fix_edid_checksum edid ≡ fix_block (take 128 edid) ++ fix_block (drop 128 edid)
unfolding fix_edid_checksum fix_blocks
two_blocks edid h =
    let rest = length-drop 128 edid in
    let whole = take_all 128 (drop 128 edid) (omega arith) in
    let gone = drop_all 128 (drop 128 edid) (omega arith) in
    let alone = append-nil (fix_block (drop 128 edid)) in
    rw (whole, gone) (ap (λ l. fix_block (take 128 edid) ++ l) alone)

accepted :
    (a b : Bool) (x y : List ℕ)
    → (if a || b then some x else none) ≡ some y
    → (y ≡ x) × ((a ≡ true) ⊎ (b ≡ true))
accepted true b x y h = (cc, inl refl)
accepted false true x y h = (cc, inr refl)
accepted false false x y h = cc

write_edid-some :
    (edid bytes : List ℕ)
    → write_edid edid ≡ some bytes
    → (bytes ≡ fix_edid_checksum edid) × ((length edid ≡ 128) ⊎ (length edid ≡ 256))
unfolding write_edid
write_edid-some edid bytes h =
    let (same, size) = accepted (length edid == 128) (length edid == 256) _ bytes h in
    (
      same,
      elim size [
        | inl e ↦ inl ((==_iff (length edid) 128).0 e)
        | inr e ↦ inr ((==_iff (length edid) 256).0 e)
      ],
    )

-- What is written as the EDID is one block or two of 128 bytes, each the given block with its checksum set:
-- the sum of its bytes is 0 as a byte, and the others are as they were.
pub write_edid-IsFixedBlock :
    (edid bytes : List ℕ)
    → write_edid edid ≡ some bytes
    → (first second : List ℕ) × (bytes ≡ first ++ second)
      × (length first ≡ 128)
      × IsFixedBlock (take 128 edid) first
      × IsFixedBlock (drop 128 edid) second
write_edid-IsFixedBlock edid bytes h =
    let (same, size) = write_edid-some edid bytes h in
    let start = length-take 128 edid in
    let rest = length-drop 128 edid in
    let blocks = two_blocks edid in
    let first = fix_block-IsFixedBlock (take 128 edid) in
    let long = fix_block-length (take 128 edid) in
    elim size [
      | inl one ↦ (
        fix_block (take 128 edid),
        fix_block (drop 128 edid),
        same ∙ blocks (omega arith),
        omega arith,
        first (omega arith),
        empty-IsFixedBlock (drop 128 edid) (omega arith),
      )
      | inr two ↦ (
        fix_block (take 128 edid),
        fix_block (drop 128 edid),
        same ∙ blocks (omega arith),
        omega arith,
        first (omega arith),
        fix_block-IsFixedBlock (drop 128 edid) (omega arith),
      )
    ]

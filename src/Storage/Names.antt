-- ===== src/Storage/Names.antt =====
-- app/src/hardware/usb/storage.rs: the names of images. A path is a text of code points; of
-- `std::path::Path` it is the Unix reading: the components are the pieces between slashes, without the
-- empty ones and those that are a single dot.
use rustkvm.Common.{
  ℕ, List, [], ◌∷◌, Option, none, some, Bool, false, ◌||◌, not, filter, any, if◌then◌else◌, ◌==◌,
}
use rustkvm.Common.Text.{codes, text_eq, split, to_ascii_lowercase}

abbrev pub Text : Type 0
Text = List ℕ

abbrev pub slash : ℕ
slash = b'/'

abbrev pub is_absolute : Text → Bool
is_absolute [] = false
is_absolute (c ∷ p) = c == slash

abbrev pub is_component : Text → Bool
is_component c = not (text_eq c [] || text_eq c (codes "."))

unfoldable pub components : Text → List Text
components p = filter is_component (split slash p)

abbrev pub is_parent_dir : Text → Bool
is_parent_dir c = text_eq c (codes "..")

abbrev pub last {ℓ} : {A : Type ℓ} → List A → Option A
last [] = none
last (x ∷ []) = some x
last (x ∷ y ∷ xs) = last (y ∷ xs)

-- `Path::file_name`: the last component, unless it is `..`.
unfoldable pub file_name : Text → Option Text
unfolding components
file_name p = elim (last (components p)) [
  | none ↦ none
  | some c ↦ if is_parent_dir c then none else some c
]

unfoldable pub sanitize_filename : Text → Option Text
unfolding components file_name
sanitize_filename filename =
    if is_absolute filename
    then none
    else if any is_parent_dir (components filename)
    then none
    else elim (file_name filename) [
      | none ↦ none
      | some base ↦ if text_eq base [] || text_eq base (codes ".") then none else some base
    ]

-- `Path::extension` of a name without slashes: what stands behind its last dot, where something stands
-- before it.
abbrev pub extension_from : Option Text → Text → Text → Option Text
extension_from found front [] = found
extension_from found front (c ∷ s) =
    let dotted = extension_from (some s) (c ∷ front) s in
    let plain = extension_from found (c ∷ front) s in
    let first = extension_from none (c ∷ front) s in
    if c == b'.' then elim front [ [] ↦ first | _ ∷ _ ↦ dotted ] else plain

abbrev pub extension : Text → Option Text
extension name = extension_from none [] name

pub data VirtualMediaMode : Type 0 where
  cdrom : VirtualMediaMode
  disk : VirtualMediaMode

unfoldable pub built_in_image_mode : Text → VirtualMediaMode
built_in_image_mode name = elim (extension name) [
  | none ↦ disk
  | some e ↦ if text_eq (to_ascii_lowercase e) (codes "iso") then cdrom else disk
]

-- The name that an upload is written under: `push(".incomplete")`.
abbrev pub incomplete : Text
incomplete = codes ".incomplete"

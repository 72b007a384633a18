-- ===== src/Storage/Upload.antt =====
-- app/src/hardware/usb/storage.rs: the folder of images and the uploads into it. The directory binds names
-- to files, and an open handle keeps its file when the name is gone. Which calls of the file system
-- succeed is an argument of the operations, and so is the identifier that `Uuid::new_v4` draws.
use rustkvm.Common.{
  ℕ, ◌+◌, ◌%◌, List, [], ◌∷◌, ◌++◌, Option, none, some, Bool, true, false, ◌&&◌, not, map, length,
  take, reverse, if◌then◌else◌, ◌==◌,
}
use rustkvm.Common.Int.{ℤ, pos, negsuc, u64_to_i64, add_i64}
use rustkvm.Common.Text.{text_eq}
use rustkvm.Common.Map.{Map, lookup, insert, remove, retain}
use rustkvm.Storage.Names.{Text, sanitize_filename, incomplete}

pub record PendingUpload : Type 0 where
  pub file : ℕ
  pub size : ℤ
  pub already_uploaded_bytes : ℤ
  pub upload_path : Text
  pub final_path : Text

-- The directory, the bytes of every file, the number of files made so far, and `PENDING_UPLOADS`.
pub record Images : Type 0 where
  pub dir : Map ℕ
  pub contents : ℕ → List ℕ
  pub made : ℕ
  pub pending : Map PendingUpload

pub data Outcome {ℓ} (A : Type ℓ) : Type ℓ where
  ok : A → Outcome A
  failed : Outcome A

abbrev pub write_at : ℕ → List ℕ → (ℕ → List ℕ) → ℕ → List ℕ
write_at i bytes contents j = if j == i then bytes else contents j

-- `n as i64` for a length.
abbrev pub as_len : ℕ → ℤ
as_len n = u64_to_i64 (n % 18446744073709551616)

-- `OpenOptions::append(true).create(true)`: the file of a name, made empty where there is none.
unfoldable pub open_append : Text → Images → ℕ × Images
open_append path s = elim (lookup path s.dir) [
  | some i ↦ (i, s)
  | none ↦ (
    s.made,
    record s {
      dir = insert path s.made s.dir;
      contents = write_at s.made [] s.contents;
      made = s.made + 1;
    },
  )
]

abbrev pub ieq : ℤ → ℤ → Bool
ieq (pos m) (pos n) = m == n
ieq (negsuc m) (negsuc n) = m == n
ieq _ _ = false

-- The length that `fs::metadata` gives, and 0 where there is no file.
unfoldable pub file_len : Text → Images → ℤ
file_len path s = elim (lookup path s.dir) [
  | none ↦ pos 0
  | some i ↦ as_len (length (s.contents i))
]

-- The entry that replaces the abandoned ones of the same upload path.
unfoldable pub add_pending : Text → PendingUpload → Images → Images
add_pending upload_id entry s = record s {
  pending =
      insert upload_id entry
        (retain (λ pu. not (text_eq pu.upload_path entry.upload_path)) s.pending);
}

-- Behind the checks: the upload of `final_path` is opened and recorded.
unfoldable pub begin_upload : Text → Text → ℤ → Images → ℤ × Images
unfolding open_append file_len add_pending
begin_upload upload_id final_path size s =
    let upload_path = final_path ++ incomplete in
    let already_uploaded_bytes = file_len upload_path s in
    let (file, s') = open_append upload_path s in
    let entry : PendingUpload = (record {
      file = file;
      size = size;
      already_uploaded_bytes = already_uploaded_bytes;
      upload_path = upload_path;
      final_path = final_path;
    }) in
    (already_uploaded_bytes, add_pending upload_id entry s')

-- `start_storage_file_upload`, with whether the folder is there, whether the file opens, and the
-- identifier.
unfoldable pub start_storage_file_upload :
    Bool → Bool → Text → Text → ℤ → Images → Outcome ℤ × Images
unfolding begin_upload
start_storage_file_upload folder opened upload_id filename size s =
    elim (sanitize_filename filename) [
      | none ↦ (failed, s)
      | some final_path ↦ elim (lookup final_path s.dir) [
        | some _ ↦ (failed, s)
        | none ↦
            let (already, s') = begin_upload upload_id final_path size s in
            if folder && opened then (ok already, s') else (failed, s)
      ]
    ]

-- `append_upload_data`; `written` is `none` when `write_all` succeeds, and the number of bytes that it wrote
-- when it fails.
unfoldable pub append_upload_data : Option ℕ → Text → List ℕ → Images → Outcome ℤ × Images
append_upload_data written upload_id bytes s = elim (lookup upload_id s.pending) [
  | none ↦ (failed, s)
  | some entry ↦
      let before = s.contents entry.file in
      let count = add_i64 entry.already_uploaded_bytes (as_len (length bytes)) in
      elim written [
        | some n ↦ (
          failed,
          record s { contents = write_at entry.file (before ++ take n bytes) s.contents },
        )
        | none ↦ (
          ok count,
          record s {
            contents = write_at entry.file (before ++ bytes) s.contents;
            pending = insert upload_id (record entry { already_uploaded_bytes = count }) s.pending;
          },
        )
      ]
]

-- `fs::rename`: the name `to` is bound to the file of `from`, which must be there.
unfoldable pub rename : Text → Text → Map ℕ → Option (Map ℕ)
rename from to dir = elim (lookup from dir) [
  | none ↦ none
  | some i ↦ some (insert to i (remove from dir))
]

-- `complete_upload`, with whether the rename of a file that is there succeeds.
unfoldable pub complete_upload : Bool → Text → Images → Bool × Images
unfolding rename
complete_upload renamed upload_id s = elim (lookup upload_id s.pending) [
  | none ↦ (false, s)
  | some entry ↦
      let s' = record s { pending = remove upload_id s.pending } in
      if ieq entry.already_uploaded_bytes entry.size
      then elim (if renamed then rename entry.upload_path entry.final_path s.dir else none) [
        | none ↦ (false, s')
        | some dir ↦ (true, record s' { dir = dir })
      ]
      else (true, s')
]

unfoldable pub get_upload_progress : Text → Images → Option (ℤ × ℤ)
get_upload_progress upload_id s = elim (lookup upload_id s.pending) [
  | none ↦ none
  | some entry ↦ some (entry.size, entry.already_uploaded_bytes)
]

-- `delete_storage_file`, with whether the removal of a file that is there succeeds. The uploads of the name
-- are forgotten first.
unfoldable pub delete_storage_file : Bool → Text → Images → Bool × Images
delete_storage_file removed filename s = elim (sanitize_filename filename) [
  | none ↦ (false, s)
  | some path ↦
      let s' = record s {
        pending =
            retain (λ pu. not (text_eq pu.upload_path path) && not (text_eq pu.final_path path))
              s.pending;
      } in
      elim (lookup path s.dir) [
        | none ↦ (false, s')
        | some _ ↦ if removed then (true, record s' { dir = remove path s.dir }) else (false, s')
      ]
]

-- The sizes that the uploads announced, under the names they are written to.
abbrev pub pending_totals : Map PendingUpload → Map ℤ
pending_totals [] = []
pending_totals ((id, pu) ∷ m) = insert pu.upload_path pu.size (pending_totals m)

abbrev pub starts_with : Text → Text → Bool
starts_with [] s = true
starts_with (c ∷ p) [] = false
starts_with (c ∷ p) (d ∷ s) = c == d && starts_with p s

-- `str::ends_with`.
abbrev pub ends_with : Text → Text → Bool
ends_with suffix s = starts_with (reverse suffix) (reverse s)

pub record StorageFileEntry : Type 0 where
  pub filename : Text
  pub size : ℤ
  pub total_bytes : ℤ

unfoldable pub file_entry : Images → Text × ℕ → StorageFileEntry
file_entry s (filename, i) =
    let size = as_len (length (s.contents i)) in
    let announced : ℤ = elim (lookup filename (pending_totals s.pending)) [
      | none ↦ size
      | some n ↦ n
    ] in
    record {
      filename = filename;
      size = size;
      total_bytes = if ends_with incomplete filename then announced else size;
    }

-- `list_storage_files`, without the times.
unfoldable pub list_storage_files : Images → List StorageFileEntry
unfolding file_entry
list_storage_files s = map (file_entry s) s.dir

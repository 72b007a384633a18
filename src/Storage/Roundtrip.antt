-- ===== src/Storage/Roundtrip.antt =====
-- app/src/hardware/usb/storage.rs: an upload from its start to its end.
use rustkvm.Common.{
  ℕ, ◌+◌, ◌≡◌, refl, sym, ap, ◌∙◌, List, [], ◌∷◌, ◌++◌, none, some, Bool, true, false, length,
  ==_refl, arith, length-append, append_assoc, append-nil, Option-cases, Bool-cases, inl, inr,
}
use rustkvm.Common.Int.{ℤ, add_i64}
use rustkvm.Common.Text.{text_eq}
use rustkvm.Common.Map.{
  text_eq_refl, lookup, insert, remove, lookup-insert, lookup-insert_other, lookup-remove,
}
use rustkvm.Storage.Names.{Text, sanitize_filename, incomplete}
use rustkvm.Storage.Upload.{
  PendingUpload, Images, write_at, as_len, open_append, ieq, file_len, add_pending, begin_upload,
  start_storage_file_upload, append_upload_data, rename, complete_upload,
}

add_i64-as_len : (m n : ℕ) → add_i64 (as_len m) (as_len n) ≡ as_len (m + n)
unfolding add_i64
add_i64-as_len m n = ground arith

abbrev pub concat : List (List ℕ) → List ℕ
concat [] = []
concat (c ∷ cs) = c ++ concat cs

-- Chunks one behind the other, each of them written.
abbrev pub append_all : Text → List (List ℕ) → Images → Images
append_all id [] s = s
append_all id (c ∷ cs) s = append_all id cs (append_upload_data none id c s).1

-- The entry counts the bytes of its file.
abbrev pub IsCounted : Text → PendingUpload → List ℕ → Images → Type 0
IsCounted id e bytes s =
    (lookup id s.pending ≡ some (record e { already_uploaded_bytes = as_len (length bytes) }))
    × (s.contents e.file ≡ bytes)

-- The upload after a chunk that is written.
abbrev after_chunk : Text → List ℕ → PendingUpload → Images → Images
after_chunk id c entry s =
    let count = add_i64 entry.already_uploaded_bytes (as_len (length c)) in
    record s {
      contents = write_at entry.file (s.contents entry.file ++ c) s.contents;
      pending = insert id (record entry { already_uploaded_bytes = count }) s.pending;
    }

append_found :
    (id : Text) (c : List ℕ) (entry : PendingUpload) (s : Images)
    → lookup id s.pending ≡ some entry
    → (append_upload_data none id c s).1 ≡ after_chunk id c entry s
unfolding append_upload_data
append_found id c entry s found = rw (found, append_upload_data) refl

append_upload_data-IsCounted :
    (id : Text) (c bytes : List ℕ) (e : PendingUpload) (s : Images)
    → IsCounted id e bytes s
    → IsCounted id e (bytes ++ c) (append_upload_data none id c s).1
      × ((append_upload_data none id c s).1.dir ≡ s.dir)
append_upload_data-IsCounted id c bytes e s h =
    let counted : PendingUpload = record e { already_uploaded_bytes = as_len (length bytes) } in
    let step = append_found id c counted s h.0 in
    let total = length-append bytes c in
    let count = add_i64-as_len (length bytes) (length c) in
    let found =
      lookup-insert id (record e { already_uploaded_bytes = as_len (length (bytes ++ c)) })
        s.pending in
    let same = ==_refl e.file in
    let held = h.1 in rw step ((rw (count, sym total) found, rw (same, held) refl), refl)

append_all-IsCounted :
    (id : Text) (chunks : List (List ℕ)) (bytes : List ℕ) (e : PendingUpload) (s : Images)
    → IsCounted id e bytes s
    → IsCounted id e (bytes ++ concat chunks) (append_all id chunks s)
      × ((append_all id chunks s).dir ≡ s.dir)
append_all-IsCounted id [] bytes e s h = let all = append-nil bytes in rw all (h, refl)
append_all-IsCounted id (c ∷ cs) bytes e s h =
    let (first, kept) = append_upload_data-IsCounted id c bytes e s h in
    let (rest, kept_too) =
      append_all-IsCounted id cs (bytes ++ c) e (append_upload_data none id c s).1 first in
    let joined = append_assoc bytes c (concat cs) in (rw (sym joined) rest, kept_too ∙ kept)

-- The bytes under a name, none where there is no file.
abbrev pub bytes_of : Text → Images → List ℕ
bytes_of path s = elim (lookup path s.dir) [ none ↦ [] | some i ↦ s.contents i ]

abbrev pub entry_of : Text → ℤ → Images → PendingUpload
entry_of name size s = record {
  file = (open_append (name ++ incomplete) s).0;
  size = size;
  already_uploaded_bytes = file_len (name ++ incomplete) s;
  upload_path = name ++ incomplete;
  final_path = name;
}

name_differs : (name : Text) → text_eq name (name ++ incomplete) ≡ false
name_differs [] = refl
name_differs (c ∷ name) = let rest = name_differs name in ground (arith, rest)

incomplete_differs : (name : Text) → text_eq (name ++ incomplete) name ≡ false
incomplete_differs [] = refl
incomplete_differs (c ∷ name) = let rest = incomplete_differs name in ground (arith, rest)

-- An opened file is bound to its name and keeps its bytes, and other names keep their files.
open_append-lookup :
    (path : Text) (s : Images)
    → let (file, s') = open_append path s in
      (lookup path s'.dir ≡ some file)
      × (s'.contents file ≡ bytes_of path s)
      × (s'.pending ≡ s.pending)
      × ((name : Text) → text_eq name path ≡ false → lookup name s'.dir ≡ lookup name s.dir)
unfolding open_append
open_append-lookup path s = elim (Option-cases (lookup path s.dir)) [
  | inl e ↦
      let bound = lookup-insert path s.made s.dir in
      let same = ==_refl s.made in
      rw (e, open_append, bytes_of)
        (bound, rw same refl, refl, λ name h. lookup-insert_other name path s.made s.dir h)
  | inr (i, e) ↦ rw (e, open_append, bytes_of) (e, refl, refl, λ name h. refl)
]

file_len-as_len : (path : Text) (s : Images) → file_len path s ≡ as_len (length (bytes_of path s))
unfolding file_len
file_len-as_len path s = elim (Option-cases (lookup path s.dir)) [
  | inl e ↦ rw (e, file_len, bytes_of) refl
  | inr (i, e) ↦ rw (e, file_len, bytes_of) refl
]

begin_upload-IsCounted :
    (id name : Text) (size : ℤ) (s : Images)
    → lookup name s.dir ≡ none
    → let s' = (begin_upload id name size s).1 in
      let e = entry_of name size s in
      IsCounted id e (bytes_of (name ++ incomplete) s) s'
      × (lookup (name ++ incomplete) s'.dir ≡ some e.file)
      × (lookup name s'.dir ≡ none)
unfolding begin_upload add_pending
begin_upload-IsCounted id name size s free =
    let (bound, held, pending, others) = open_append-lookup (name ++ incomplete) s in
    let len = file_len-as_len (name ++ incomplete) s in
    let other = others name (name_differs name) in
    let same = text_eq_refl id in ((rw (same, len) refl, held), bound, other ∙ free)

bytes_of_bound :
    (path : Text) (i : ℕ) (s : Images) → lookup path s.dir ≡ some i → bytes_of path s ≡ s.contents i
bytes_of_bound path i s h = rw (h, bytes_of) refl

-- The end of an upload whose entry counts the bytes of its file.
complete_upload-IsCounted :
    (id : Text) (bytes : List ℕ) (e : PendingUpload) (s : Images)
    → IsCounted id e bytes s
    → lookup e.upload_path s.dir ≡ some e.file
    → text_eq e.upload_path e.final_path ≡ false
    → let (done, s') = complete_upload true id s in
      let whole = ieq (as_len (length bytes)) e.size in
      (done ≡ true)
      × (whole ≡ true → (bytes_of e.final_path s' ≡ bytes) × (lookup e.upload_path s'.dir ≡ none))
      × (whole ≡ false → (bytes_of e.upload_path s' ≡ bytes) × (s'.dir ≡ s.dir))
unfolding complete_upload rename
complete_upload-IsCounted id bytes e s h bound differs =
    let found = h.0 in
    let held = h.1 in
    elim (Bool-cases (ieq (as_len (length bytes)) e.size)) [
      | inl w ↦
          let moved = lookup-insert e.final_path e.file (remove e.upload_path s.dir) in
          let gone =
            lookup-insert_other e.upload_path e.final_path e.file (remove e.upload_path s.dir)
              differs
            ∙ lookup-remove e.upload_path s.dir in
          let after = record s {
            dir = insert e.final_path e.file (remove e.upload_path s.dir);
            pending = remove id s.pending;
          } in
          rw (found, complete_upload, w, bound)
            (
              refl,
              λ same. (bytes_of_bound e.final_path e.file after moved ∙ held, gone),
              λ other. cc,
            )
      | inr w ↦
          let still =
            bytes_of_bound e.upload_path e.file (record s { pending = remove id s.pending })
              bound in
          rw (found, complete_upload, w) (refl, λ same. cc, λ other. (still ∙ held, refl))
    ]

-- The end of the upload of some chunks under the identifier `id`.
abbrev pub upload : Text → Text → ℤ → List (List ℕ) → Images → Bool × Images
upload id filename size chunks s =
    complete_upload true id
      (append_all id chunks (start_storage_file_upload true true id filename size s).1)

start_upload :
    (id filename name : Text) (size : ℤ) (s : Images)
    → sanitize_filename filename ≡ some name
    → lookup name s.dir ≡ none
    → (start_storage_file_upload true true id filename size s).1 ≡ (begin_upload id name size s).1
unfolding start_storage_file_upload
start_upload id filename name size s named free = rw (named, free, start_storage_file_upload) refl

-- An upload that succeeds in every call of the file system returns. When the bytes of the abandoned upload and
-- of the chunks are as many as announced, the image is these bytes in their order and the unfinished file is
-- gone. Otherwise the unfinished file has these bytes, for the next try, and there is no image.
pub upload_roundtrip :
    (id filename name : Text) (size : ℤ) (chunks : List (List ℕ)) (s : Images)
    → sanitize_filename filename ≡ some name
    → lookup name s.dir ≡ none
    → let (done, s') = upload id filename size chunks s in
      let bytes = bytes_of (name ++ incomplete) s ++ concat chunks in
      let whole = ieq (as_len (length bytes)) size in
      (done ≡ true)
      × (whole ≡ true → (bytes_of name s' ≡ bytes) × (lookup (name ++ incomplete) s'.dir ≡ none))
      × (whole ≡ false → (bytes_of (name ++ incomplete) s' ≡ bytes) × (lookup name s'.dir ≡ none))
upload_roundtrip id filename name size chunks s named free =
    let e = entry_of name size s in
    let (counted, bound, still_free) = begin_upload-IsCounted id name size s free in
    let begun = (begin_upload id name size s).1 in
    let (all, kept) =
      append_all-IsCounted id chunks (bytes_of (name ++ incomplete) s) e begun counted in
    let start = start_upload id filename name size s named free in
    let bound_too = ap (λ d. lookup (name ++ incomplete) d) kept ∙ bound in
    let free_too = ap (λ d. lookup name d) kept ∙ still_free in
    let (done, stored, left) =
      complete_upload-IsCounted id (bytes_of (name ++ incomplete) s ++ concat chunks) e
        (append_all id chunks begun) all bound_too (incomplete_differs name) in
    rw start (
      done,
      stored,
      λ other. let (still, dir) = left other in (still, ap (λ d. lookup name d) dir ∙ free_too),
    )

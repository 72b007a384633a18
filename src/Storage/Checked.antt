-- ===== src/Storage/Checked.antt =====
-- app/src/hardware/usb/storage.rs: the check of a URL against the mount from it.
use rustkvm.Common.{
  ℕ, ◌≡◌, refl, Option, none, some, Bool, true, false, ◌&&◌, ◌||◌, not, if◌then◌else◌, ◌==◌, ◌⊎◌,
  inl, inr, Bool-cases, Option-cases,
}
use rustkvm.Common.Int.{ℤ, pos}
use rustkvm.Storage.Names.{Text}
use rustkvm.Storage.Url.{
  Response, is_success, content_range_size, content_length_size, or_else, head_size,
  supported_scheme, new_http_reader, UrlCheckResult, usable_size, unusable, bad_status, Reason,
  check_mount_url,
}

-- What the check says where a reader is made, and where none is.
abbrev pub Agrees : Bool → Option ℤ → Option UrlCheckResult → Type 0
Agrees built (some n) result = result ≡ some (usable_size n)
Agrees built none none = built ≡ false
Agrees built none (some result) = (result.usable ≡ false) ⊎ (result ≡ usable_size (pos 0))

-- The sizes of the answer to the GET.
sizes_alike :
    (built : Bool) (range len : Option ℤ)
    → Agrees built (or_else range len) (elim range [
      | some n ↦ some (usable_size n)
      | none ↦ elim len [ some n ↦ some (usable_size n) | none ↦ some (usable_size (pos 0)) ]
    ])
sizes_alike built (some n) len = refl
sizes_alike built none (some n) = refl
sizes_alike built none none = inr refl

served_alike :
    (built success partial : Bool) (status : ℕ) (range len : Option ℤ)
    → Agrees built (if not success && not partial then none else or_else range len) (
        if not (success || partial) then some (unusable (bad_status status)) else elim range [
          | some n ↦ some (usable_size n)
          | none ↦ elim len [ some n ↦ some (usable_size n) | none ↦ some (usable_size (pos 0)) ]
        ])
served_alike built true partial status range len = sizes_alike built range len
served_alike built false true status range len = sizes_alike built range len
served_alike built false false status range len = inl refl

-- Where a reader of some size is made of a server's answers, the check calls the URL usable with this size for
-- the same answers. Where none is made, the check fails for want of a client, calls the URL unusable, or calls
-- it usable with the size 0. (A server that says a size of 0 has a reader made of this size.)
pub check_mount_url-Agrees :
    (built : Bool) (head get : Option Response) (url : Text)
    → Agrees built (new_http_reader built head get url) (check_mount_url built head get url)
unfolding new_http_reader check_mount_url
check_mount_url-Agrees built head get url = elim (Bool-cases (supported_scheme url)) [
  | inr e ↦ rw (e, new_http_reader, check_mount_url) (inl refl)
  | inl e ↦ elim (Bool-cases built) [
    | inr b ↦ rw (e, b, new_http_reader, check_mount_url) refl
    | inl b ↦ elim (Option-cases (head_size head)) [
      | inr (n, h) ↦ rw (e, b, h, new_http_reader, check_mount_url) refl
      | inl h ↦ rw (e, b, h, new_http_reader, check_mount_url) (got get)
    ]
  ]
]
  where
    got :
        (g : Option Response)
        → Agrees true
            (elim g [
              | none ↦ none
              | some r ↦
                  if not (is_success r) && not (r.status == 206)
                  then none
                  else or_else (content_range_size r) (content_length_size r)
            ])
            (elim g [
              | none ↦ some (unusable Reason.request_failed)
              | some r ↦
                  if not (is_success r || r.status == 206)
                  then some (unusable (bad_status r.status))
                  else elim (content_range_size r) [
                    | some n ↦ some (usable_size n)
                    | none ↦ elim (content_length_size r) [
                      | some n ↦ some (usable_size n)
                      | none ↦ some (usable_size (pos 0))
                    ]
                  ]
            ])
    got none = inl refl
    got (some r) =
        served_alike true (is_success r) (r.status == 206) r.status (content_range_size r)
          (content_length_size r)

-- ===== src/Storage/Url.antt =====
-- app/src/hardware/usb/storage.rs: the size of a remote image. What the server answers is a parameter:
-- `none` stands for a request that fails.
use rustkvm.Common.{
  ℕ, zero, suc, ◌+◌, ◌-◌, ◌*◌, [], ◌∷◌, Option, none, some, Bool, true, false, ◌&&◌, ◌||◌, not, leb,
  ◌==◌, if◌then◌else◌,
}
use rustkvm.Common.Int.{ℤ, pos, negsuc}
use rustkvm.Common.Text.{codes, between, trim}
use rustkvm.Storage.Names.{Text}
use rustkvm.Storage.Upload.{starts_with}

pub record Response : Type 0 where
  pub status : ℕ
  pub content_length : Option Text
  pub content_range : Option Text

abbrev pub is_success : Response → Bool
is_success r = between 200 r.status 299

-- The value of the digits behind `acc`.
unfoldable pub digits : ℕ → Text → Option ℕ
digits acc [] = some acc
digits acc (c ∷ s) =
    let rest = digits (acc * 10 + (c - b'0')) s in if between b'0' c b'9' then rest else none

-- One digit at least.
unfoldable pub number : Text → Option ℕ
unfolding digits
number [] = none
number (c ∷ s) = digits 0 (c ∷ s)

abbrev pub positive : Option ℕ → Option ℤ
positive none = none
positive (some n) = if leb n 9223372036854775807 then some (pos n) else none

abbrev pub negative : Option ℕ → Option ℤ
negative none = none
negative (some zero) = some (pos 0)
negative (some (suc n)) = if leb n 9223372036854775807 then some (negsuc n) else none

-- `str::parse::<i64>`.
unfoldable pub parse_i64 : Text → Option ℤ
unfolding number
parse_i64 [] = none
parse_i64 (c ∷ s) =
    if c == b'+'
    then positive (number s)
    else if c == b'-'
    then negative (number s)
    else positive (number (c ∷ s))

-- What stands behind the last slash: `rsplit_once('/')`.
unfoldable pub behind_slash : Text → Option Text
behind_slash [] = none
behind_slash (c ∷ s) =
    let rest = behind_slash s in
    elim rest [ some t ↦ some t | none ↦ if c == b'/' then some s else none ]

abbrev pub parsed : Option Text → Option ℤ
parsed none = none
parsed (some t) = parse_i64 t

-- The number of a `Content-Length`, and the total of a `Content-Range`.
unfoldable pub content_length_size : Response → Option ℤ
unfolding parse_i64
content_length_size r = parsed r.content_length

unfoldable pub content_range_size : Response → Option ℤ
unfolding parse_i64 behind_slash
content_range_size r = elim r.content_range [
  | none ↦ none
  | some s ↦ elim (behind_slash s) [ none ↦ none | some total ↦ parse_i64 (trim total) ]
]

abbrev pub or_else : Option ℤ → Option ℤ → Option ℤ
or_else (some n) other = some n
or_else none other = other

unfoldable pub head_size : Option Response → Option ℤ
unfolding content_length_size
head_size head = elim head [
  | none ↦ none
  | some r ↦ if is_success r then content_length_size r else none
]

unfoldable pub supported_scheme : Text → Bool
supported_scheme url = starts_with (codes "http://") url || starts_with (codes "https://") url

-- `HttpRangeReader::new`: the size, with whether the client is built and the answers to the HEAD and to the
-- GET of the first byte.
unfoldable pub new_http_reader : Bool → Option Response → Option Response → Text → Option ℤ
unfolding supported_scheme head_size content_range_size content_length_size
new_http_reader built head get url =
    if not (supported_scheme url) then none else if not built then none else elim (head_size head) [
      | some n ↦ some n
      | none ↦ elim get [
        | none ↦ none
        | some r ↦
            if not (is_success r) && not (r.status == 206)
            then none
            else or_else (content_range_size r) (content_length_size r)
      ]
    ]

pub data Reason : Type 0 where
  unsupported : Reason
  bad_status : ℕ → Reason
  request_failed : Reason

pub record UrlCheckResult : Type 0 where
  pub usable : Bool
  pub reason : Option Reason
  pub size : ℤ

abbrev pub usable_size : ℤ → UrlCheckResult
usable_size n = record { usable = true; reason = none; size = n }

abbrev pub unusable : Reason → UrlCheckResult
unusable why = record { usable = false; reason = some why; size = pos 0 }

-- `check_mount_url`; `none` is the error of a client that is not built.
unfoldable pub check_mount_url :
    Bool → Option Response → Option Response → Text → Option UrlCheckResult
unfolding supported_scheme head_size content_range_size content_length_size
check_mount_url built head get url =
    if not (supported_scheme url)
    then some (unusable unsupported)
    else if not built
    then none
    else elim (head_size head) [
      | some n ↦ some (usable_size n)
      | none ↦ elim get [
        | none ↦ some (unusable request_failed)
        | some r ↦
            if not (is_success r || r.status == 206)
            then some (unusable (bad_status r.status))
            else elim (content_range_size r) [
              | some n ↦ some (usable_size n)
              | none ↦ elim (content_length_size r) [
                | some n ↦ some (usable_size n)
                | none ↦ some (usable_size (pos 0))
              ]
            ]
      ]
    ]

-- ===== src/Storage/Device.antt =====
-- app/src/hardware/block_device.rs: the read-only device that the NBD server reads, and the readers of
-- app/src/hardware/usb/storage.rs that it stands on. Lengths and positions are the `u64` and `i64` of
-- the source; what a server or a browser answers is a parameter.
use rustkvm.Common.{
  ℕ, ◌+◌, ◌-◌, ◌%◌, min, List, [], Option, none, some, ◌||◌, length, take, if◌then◌else◌, leb, ◌==◌,
}
use rustkvm.Common.Int.{
  ℤ, pos, negsuc, u64_to_i64, add_i64, sub_i64, is_negative, min_ℤ, max_ℤ, ◌+ℤ◌, i64_to_u64,
}

-- `RemoteImageReader::read_at`; `none` is an error.
abbrev pub Reader : Type 0
Reader = ℤ → ℤ → Option (List ℕ)

pub record RemoteImageDevice : Type 0 where
  pub size : ℕ
  pub position : ℕ

unfoldable pub new_device : ℕ → RemoteImageDevice
new_device size = record { size = size; position = 0 }

-- The bytes that a read copies into the buffer, and the device behind it.
unfoldable pub copied : ℕ → RemoteImageDevice → List ℕ → List ℕ × RemoteImageDevice
copied to_read d bytes =
    let n = min (length bytes) to_read in
    (take n bytes, record d { position = (d.position + n) % 18446744073709551616 })

-- `Read::read` into a buffer of `buf_len` bytes.
unfoldable pub read : Reader → ℕ → RemoteImageDevice → Option (List ℕ × RemoteImageDevice)
unfolding copied
read read_at buf_len d =
    let to_read = min buf_len (d.size - d.position) in
    if leb d.size d.position
    then some ([], d)
    else if to_read == 0
    then some ([], d)
    else elim (read_at (u64_to_i64 d.position) (u64_to_i64 to_read)) [
      | none ↦ none
      | some bytes ↦ some (copied to_read d bytes)
    ]

pub data SeekFrom : Type 0 where
  from_start : ℕ → SeekFrom
  from_current : ℤ → SeekFrom
  from_end : ℤ → SeekFrom

-- The new position, in an `i128`.
abbrev pub seek_target : SeekFrom → RemoteImageDevice → ℤ
seek_target (from_start x) d = pos x
seek_target (from_current x) d = pos d.position +ℤ x
seek_target (from_end x) d = pos d.size +ℤ x

-- `Seek::seek`; `none` is the error of a position before the start.
unfoldable pub seek : SeekFrom → RemoteImageDevice → Option (ℕ × RemoteImageDevice)
seek from d = elim (seek_target from d) [
  | negsuc _ ↦ none
  | pos n ↦ let p = n % 18446744073709551616 in some (p, record d { position = p })
]

-- `Write::write` refuses.
abbrev pub write : List ℕ → RemoteImageDevice → Option ℕ
write buf d = none

-- `WebRtcDiskReader::read_at` over the handler of the session, if one is set.
unfoldable pub webrtc_read_at : Option Reader → ℤ → Reader
webrtc_read_at handler size off len = elim handler [
  | none ↦ none
  | some ask ↦
      let end = min_ℤ (add_i64 off len) size in
      let req_len = max_ℤ (sub_i64 end off) (pos 0) in
      if is_negative off || is_negative len
      then none
      else if i64_to_u64 req_len == 0
      then some []
      else ask off req_len
]

-- The last byte of the range that `HttpRangeReader::read_at` asks for.
unfoldable pub http_range_end : ℤ → ℤ → ℤ
http_range_end off len = max_ℤ (sub_i64 (add_i64 off len) (pos 1)) off

-- `HttpRangeReader::read_at`: `fetch first last` is the body of a response that succeeds.
unfoldable pub http_read_at : Reader → Reader
unfolding http_range_end
http_read_at fetch off len =
    if is_negative off || is_negative len then none else fetch off (http_range_end off len)

-- ===== src/Storage/Readers.antt =====
-- The readers of app/src/hardware/usb/storage.rs, and the device over any reader.
use rustkvm.Common.{
  ℕ, ◌+◌, ◌-◌, ◌<◌, ◌≤◌, ◌≡◌, min, List, some, length, take, drop, arith, length-take, Option-cases,
  inl, inr,
}
use rustkvm.Common.Int.{pos, u64_to_i64, add_i64, sub_i64}
use rustkvm.Storage.Device.{
  Reader, RemoteImageDevice, read, copied, webrtc_read_at, http_range_end, http_read_at,
}
use rustkvm.Storage.Image.{Serves, IsI64Size}

-- A range within the size goes to the browser as it is.
webrtc_within :
    (ask : Reader) (size off len : ℕ)
    → IsI64Size size
    → 0 < len
    → off + len ≤ size
    → webrtc_read_at (some ask) (pos size) (pos off) (pos len) ≡ ask (pos off) (pos len)
unfolding webrtc_read_at add_i64 sub_i64
webrtc_within ask size off len small some_bytes within = ground arith

-- The reader of a browser's disk serves the image that its handler serves.
pub webrtc_read_at-Serves :
    (ask : Reader) (image : List ℕ)
    → IsI64Size (length image)
    → Serves ask image
    → Serves (webrtc_read_at (some ask) (pos (length image))) image
webrtc_read_at-Serves ask image small serves off len some_bytes within =
    let same = webrtc_within ask (length image) off len small some_bytes within in
    let served = serves off len some_bytes within in ground (arith, same, served)

http_within :
    (fetch : Reader) (off len : ℕ)
    → 0 < len
    → IsI64Size (off + len)
    → http_read_at fetch (pos off) (pos len) ≡ fetch (pos off) (pos (off + len - 1))
unfolding http_read_at http_range_end add_i64 sub_i64
http_within fetch off len some_bytes small = ground arith

-- A server that answers an inclusive range of the image with its bytes makes the HTTP reader serve the image.
pub http_read_at-Serves :
    (fetch : Reader) (image : List ℕ)
    → IsI64Size (length image)
    → ((first last : ℕ)
        → first ≤ last
        → last < length image
        → fetch (pos first) (pos last) ≡ some (take (last + 1 - first) (drop first image)))
    → Serves (http_read_at fetch) image
http_read_at-Serves fetch image small answers off len some_bytes within =
    let same = http_within fetch off len some_bytes (omega arith) in
    let answered = answers off (off + len - 1) (omega arith) (omega arith) in
    let many : off + len - 1 + 1 - off ≡ len = omega arith in ground (arith, same, answered, many)

-- Whatever the reader answers, also more or fewer bytes than it was asked for: a read gives at most the bytes
-- that the buffer holds, moves the position by their number, and not past the end.
pub read_bounded :
    (read_at : Reader) (buf_len : ℕ) (d d' : RemoteImageDevice) (bytes : List ℕ)
    → d.size < 18446744073709551616
    → read read_at buf_len d ≡ some (bytes, d')
    → (length bytes ≤ buf_len)
      × (d'.size ≡ d.size)
      × (d'.position ≡ d.position + length bytes)
      × (d.position ≤ d.size → d'.position ≤ d.size)
unfolding read copied
read_bounded read_at buf_len d d' bytes fits h =
    let to_read = min buf_len (d.size - d.position) in
    elim (Option-cases (read_at (u64_to_i64 d.position) (u64_to_i64 to_read))) [
      | inl none_read ↦ ground (arith, none_read)
      | inr (answer, some_read) ↦
          let long = length-take (min (length answer) to_read) answer in
          ground (arith, some_read, long)
    ]

-- ===== src/Storage/Image.antt =====
-- The device of app/src/hardware/block_device.rs over a reader that serves one image.
use rustkvm.Common.{
  ℕ, ◌+◌, ◌-◌, ◌<◌, ◌≤◌, ◌≡◌, min, List, [], ◌∷◌, ◌++◌, Option, none, some, length, take, drop,
  arith, sym, take_idem, take-min, length-take, length-drop, drop-drop, drop-min, take_split,
}
use rustkvm.Common.Int.{pos}
use rustkvm.Storage.Device.{Reader, RemoteImageDevice, read, copied}

-- A reader that answers a range, not empty and within the image with the bytes of the image there.
abbrev pub Serves : Reader → List ℕ → Type 0
Serves read_at image =
    (off len : ℕ)
    → 0 < len
    → off + len ≤ length image
    → read_at (pos off) (pos len) ≡ some (take len (drop off image))

-- A size that an `i64` holds.
abbrev pub IsI64Size : ℕ → Type 0
IsI64Size n = n < 9223372036854775808

-- The device of an image, at a position of it.
abbrev pub device_at : List ℕ → ℕ → RemoteImageDevice
device_at image position = record { size = length image; position = position }

take_of_served :
    (buf_len position : ℕ) (image : List ℕ)
    → let k = min buf_len (length image - position) in
      let bytes = take k (drop position image) in
      (length bytes ≡ k) × (take k bytes ≡ take buf_len (drop position image))
take_of_served buf_len position image =
    let k = min buf_len (length image - position) in
    let rest = length-drop position image in
    let long = length-take k (drop position image) in
    let twice = take_idem k (drop position image) in
    let least = take-min buf_len (drop position image) in
    (omega (arith, rest, long), (rw (twice, sym rest) least))

-- One read of `buf_len` bytes at the position of the device gives the next bytes of the image, as many as
-- the buffer holds and the image has left, and moves the position behind them.
pub read-Serves :
    (read_at : Reader) (image : List ℕ) (buf_len position : ℕ)
    → Serves read_at image
    → IsI64Size (length image)
    → position ≤ length image
    → read read_at buf_len (device_at image position)
      ≡ some (
        take buf_len (drop position image),
        device_at image (position + min buf_len (length image - position)),
      )
unfolding read copied
read-Serves read_at image buf_len position serves small inside =
    let (long, bytes) = take_of_served buf_len position image in
    let served = serves position (min buf_len (length image - position)) in
    let within : position + min buf_len (length image - position) ≤ length image = omega arith in
    ground (arith, long, bytes, served, within)

-- Reads one behind the other, into buffers of the given lengths: all the bytes, and the device at the end.
abbrev pub reads : Reader → List ℕ → RemoteImageDevice → Option (List ℕ × RemoteImageDevice)
reads read_at [] d = some ([], d)
reads read_at (n ∷ ns) d = elim (read read_at n d) [
  | none ↦ none
  | some (bytes, d') ↦ elim (reads read_at ns d') [
    | none ↦ none
    | some (more, d'') ↦ some (bytes ++ more, d'')
  ]
]

abbrev pub sum : List ℕ → ℕ
sum [] = 0
sum (n ∷ ns) = n + sum ns

-- The next `n` bytes of an image behind a position, however they are cut into two reads.
take_two :
    (n m position : ℕ) (image : List ℕ)
    → take n (drop position image)
        ++ take m (drop (position + min n (length image - position)) image)
      ≡ take (n + m) (drop position image)
take_two n m position image =
    let rest = length-drop position image in
    let at = drop-drop position (min n (length image - position)) image in
    let least = drop-min n (drop position image) in
    let whole = take_split n m (drop position image) in rw (sym at, sym rest, least) whole

-- Reads one behind the other give the bytes of the image in their order, as many as the buffers hold and the
-- image has left, whatever the lengths of the buffers.
pub reads-Serves :
    (read_at : Reader) (image lengths : List ℕ) (position : ℕ)
    → Serves read_at image
    → IsI64Size (length image)
    → position ≤ length image
    → reads read_at lengths (device_at image position)
      ≡ some (
        take (sum lengths) (drop position image),
        device_at image (position + min (sum lengths) (length image - position)),
      )
reads-Serves read_at image [] position serves small inside = ground arith
reads-Serves read_at image (n ∷ ns) position serves small inside =
    let next = read-Serves read_at image n position serves small inside in
    let rest =
      reads-Serves read_at image ns (position + min n (length image - position)) serves small
        (omega arith) in
    let two = take_two n (sum ns) position image in ground (arith, next, rest, two)

-- ===== src/Storage/Mounting.antt =====
-- app/src/hardware/usb/storage.rs: what the mounts and the unmount leave behind.
use rustkvm.Common.{ℕ, ◌+◌, ◌≡◌, refl, Option, none, some, Bool, true, false, arith, if◌then◌else◌}
use rustkvm.Common.Action.{
  Action, and_then, and_also, refuse, Ensures, Keeps, and_then-Ensures, and_then-Keeps,
  and_also-Keeps,
}
use rustkvm.Common.Int.{ℤ}
use rustkvm.Common.Text.{codes}
use rustkvm.Storage.Names.{Text, VirtualMediaMode}
use rustkvm.Storage.Media.{
  Media, VirtualMediaState, RemoteReader, http, web_rtc, http_reader, webrtc_reader, attempt, call,
  write_file, write_lun_file, newline, claim, set_mass_storage_image, set_mass_storage_mode,
  start_nbd, ensure_nbd, serve_remote, mount_with_http, mount_with_webrtc, unmount_image,
  clear_image, finish_unmount, set_reader, stop_nbd, is_cdrom, nbd_path,
}

-- Only the files of the gadget may differ.
abbrev pub SameStatics : Media → Media → Type 0
SameStatics s t = (t.current ≡ s.current) × (t.nbd ≡ s.nbd) × (t.reader ≡ s.reader)

SameStatics-trans : (s t u : Media) → SameStatics s t → SameStatics t u → SameStatics s u
SameStatics-trans s t u h k = ground arith

attempt-SameStatics :
    (succeeds : ℕ → Bool) (f : Media → Media)
    → ((s : Media) → SameStatics s (f s))
    → Keeps SameStatics (attempt succeeds f)
unfolding attempt
attempt-SameStatics succeeds f h s = let same = h s in ground arith

write_file-SameStatics :
    (succeeds : ℕ → Bool) (f : Media → Media)
    → ((s : Media) → SameStatics s (f s))
    → Keeps SameStatics (write_file succeeds f)
unfolding write_file attempt and_then and_also
write_file-SameStatics succeeds f h s =
    let same = h (record s { tried = s.tried + 1 }) in ground (arith, same)

call-SameStatics : (succeeds : ℕ → Bool) → Keeps SameStatics (call succeeds)
call-SameStatics succeeds = attempt-SameStatics succeeds (λ s. s) (λ s. (refl, refl, refl))

write_lun_file-SameStatics :
    (succeeds : ℕ → Bool) (text : Text) → Keeps SameStatics (write_lun_file succeeds text)
unfolding write_file
write_lun_file-SameStatics succeeds text =
    write_file-SameStatics succeeds (λ s. record s { lun_file = text }) (λ s. (refl, refl, refl))

set_mass_storage_image-SameStatics :
    (succeeds : ℕ → Bool) (path : Text) → Keeps SameStatics (set_mass_storage_image succeeds path)
unfolding set_mass_storage_image
set_mass_storage_image-SameStatics succeeds path =
    let write = write_lun_file succeeds path in
    let clear = write_lun_file succeeds newline in
    let kept = write_lun_file-SameStatics succeeds path in
    and_then-Keeps SameStatics (call succeeds) (and_also clear (and_then write write))
      SameStatics-trans (call-SameStatics succeeds)
      (and_also-Keeps SameStatics clear (and_then write write) SameStatics-trans
        (write_lun_file-SameStatics succeeds newline)
        (and_then-Keeps SameStatics write write SameStatics-trans kept kept))

pub set_mass_storage_mode-SameStatics :
    (succeeds : ℕ → Bool) (b : Bool) → Keeps SameStatics (set_mass_storage_mode succeeds b)
unfolding set_mass_storage_mode
set_mass_storage_mode-SameStatics succeeds b =
    let mode = λ (s : Media). record s { lun_cdrom = if b then codes "1" else codes "0" } in
    and_then-Keeps SameStatics (call succeeds) (write_file succeeds mode) SameStatics-trans
      (call-SameStatics succeeds) (write_file-SameStatics succeeds mode (λ s. (refl, refl, refl)))

-- The second part of an unmount, whatever fails in it: nothing is mounted, nothing is served and there is no
-- reader.
pub finish_unmount-clears :
    (succeeds : ℕ → Bool) (s : Media)
    → let (s', done) = finish_unmount succeeds s in
      (done ≡ true) × (s'.current ≡ none) × (s'.nbd ≡ none) × (s'.reader ≡ none)
unfolding finish_unmount and_also stop_nbd set_reader
finish_unmount-clears succeeds s =
    let (a, b, c) = set_mass_storage_mode-SameStatics succeeds false (record s { nbd = none }) in
    (refl, refl, b, refl)

-- An unmount returns, whatever fails in it: nothing is mounted, nothing is served and there is no reader.
pub unmount_image_clears :
    (succeeds : ℕ → Bool) (s : Media)
    → let (s', done) = unmount_image succeeds s in
      (done ≡ true) × (s'.current ≡ none) × (s'.nbd ≡ none) × (s'.reader ≡ none)
unfolding unmount_image and_also
unmount_image_clears succeeds s = finish_unmount-clears succeeds (clear_image succeeds s).0

-- The statics while a remote medium is mounted.
abbrev pub IsMounted : VirtualMediaState → RemoteReader → Media → Type 0
IsMounted state reader s =
    (s.current ≡ some state) × (s.reader ≡ some reader) × (s.nbd ≡ some (record { served = true }))

pub set_mass_storage_mode_file :
    (succeeds : ℕ → Bool) (b : Bool) (s : Media)
    → (set_mass_storage_mode succeeds b s).0.lun_file ≡ s.lun_file
unfolding set_mass_storage_mode write_file attempt and_then and_also
set_mass_storage_mode_file succeeds b s = ground arith

-- The second part of an unmount leaves the image of the gadget.
pub finish_unmount-file :
    (succeeds : ℕ → Bool) (s : Media) → (finish_unmount succeeds s).0.lun_file ≡ s.lun_file
unfolding finish_unmount and_also stop_nbd set_reader
finish_unmount-file succeeds s = set_mass_storage_mode_file succeeds false (record s { nbd = none })

start_nbd-Ensures :
    (succeeds : ℕ → Bool) (s : Media)
    → (start_nbd succeeds s).1 ≡ true
    → let t = (start_nbd succeeds s).0 in
      (t.nbd ≡ some (record { served = true })) × (t.current ≡ s.current) × (t.reader ≡ s.reader)
unfolding start_nbd attempt ensure_nbd
start_nbd-Ensures succeeds s h = ground arith

serve_remote-Ensures :
    (succeeds : ℕ → Bool) (reader : RemoteReader) (state : VirtualMediaState) (s : Media)
    → s.current ≡ some state
    → (serve_remote succeeds reader s).1 ≡ true
    → IsMounted state reader (serve_remote succeeds reader s).0
unfolding serve_remote and_then set_reader
serve_remote-Ensures succeeds reader state s here h =
    let t : Media = record s { reader = some reader } in
    let started = start_nbd-Ensures succeeds t in
    let same = set_mass_storage_image-SameStatics succeeds nbd_path (start_nbd succeeds t).0 in
    ground (arith, started, same)

-- The steps that both remote mounts share: the mode, the claim, and the device.
abbrev pub remote_mount : (ℕ → Bool) → VirtualMediaState → RemoteReader → Action Media
remote_mount succeeds state reader =
    and_then (set_mass_storage_mode succeeds (is_cdrom state.mode))
      (and_then (claim state) (serve_remote succeeds reader))

remote_mount-Ensures :
    (succeeds : ℕ → Bool) (state : VirtualMediaState) (reader : RemoteReader)
    → Ensures (λ s t. IsMounted state reader t) (remote_mount succeeds state reader)
unfolding and_then claim
remote_mount-Ensures succeeds state reader s h =
    let t = (set_mass_storage_mode succeeds (is_cdrom state.mode) s).0 in
    let served =
      serve_remote-Ensures succeeds reader state (record t { current = some state }) refl in
    ground (arith, served)

-- A mount of a browser's disk that returns has recorded the medium and its reader, and the device is served.
pub mount_with_webrtc-IsMounted :
    (succeeds : ℕ → Bool) (filename : Text) (size : ℤ) (mode : VirtualMediaMode) (s : Media)
    → (mount_with_webrtc succeeds filename size mode s).1 ≡ true
    → IsMounted
        (record {
          source = web_rtc;
          mode = mode;
          filename = some filename;
          url = none;
          size = size;
        })
        (webrtc_reader size)
        (mount_with_webrtc succeeds filename size mode s).0
unfolding mount_with_webrtc
mount_with_webrtc-IsMounted succeeds filename size mode s h =
    remote_mount-Ensures succeeds
      (record { source = web_rtc; mode = mode; filename = some filename; url = none; size = size })
      (webrtc_reader size) s h

-- A mount from a server that returns was told a size; it has recorded the medium of that size and its reader,
-- and the device is served. (What the gadget shows is not said: an error of the writes to its files may be
-- ignored.)
pub mount_with_http-IsMounted :
    (succeeds : ℕ → Bool) (found : Option ℤ) (url : Text) (mode : VirtualMediaMode) (s : Media)
    → (mount_with_http succeeds found url mode s).1 ≡ true
    → (size : ℤ) × (found ≡ some size)
      × IsMounted
          (record { source = http; mode = mode; filename = none; url = some url; size = size })
          (http_reader url size)
          (mount_with_http succeeds found url mode s).0
unfolding mount_with_http and_then attempt
mount_with_http-IsMounted succeeds none url mode s h =
    let never =
      and_then-Ensures (λ s t. Unit {0}) (λ s t. true ≡ false) (λ s t. true ≡ false) (call succeeds)
        (and_then (set_mass_storage_mode succeeds (is_cdrom mode)) refuse) (λ s t u a b. b)
        (λ s h. tt)
        (and_then-Ensures (λ s t. Unit {0}) (λ s t. true ≡ false) (λ s t. true ≡ false)
          (set_mass_storage_mode succeeds (is_cdrom mode)) refuse (λ s t u a b. b) (λ s h. tt)
          (λ s h. cc))
        s h in
    cc
mount_with_http-IsMounted succeeds (some size) url mode s h =
    let state : VirtualMediaState = record {
      source = http;
      mode = mode;
      filename = none;
      url = some url;
      size = size;
    } in
    let reader = http_reader url size in
    (
      size,
      refl,
      and_then-Ensures (λ s t. Unit {0}) (λ s t. IsMounted state reader t)
          (λ s t. IsMounted state reader t) (call succeeds) (remote_mount succeeds state reader)
          (λ s t u a b. b) (λ s h. tt) (remote_mount-Ensures succeeds state reader) s h,
    )

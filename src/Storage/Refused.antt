-- ===== src/Storage/Refused.antt =====
-- app/src/hardware/usb/storage.rs: a remote mount over a medium that is mounted.
use rustkvm.Common.{ℕ, ◌≡◌, refl, ◌∙◌, Option, none, some, Bool, true, false, arith, if◌then◌else◌}
use rustkvm.Common.Action.{Action, and_then, and_also, refuse, Keeps}
use rustkvm.Common.Text.{codes}
use rustkvm.Common.Int.{ℤ}
use rustkvm.Storage.Names.{Text, VirtualMediaMode}
use rustkvm.Storage.Media.{
  Media, VirtualMediaState, RemoteReader, http, web_rtc, http_reader, webrtc_reader, attempt, call,
  write_file, claim, set_mass_storage_mode, serve_remote, mount_with_http, mount_with_webrtc,
  is_cdrom,
}
use rustkvm.Storage.Mounting.{
  remote_mount, set_mass_storage_mode-SameStatics, set_mass_storage_mode_file,
}

-- The medium, the device, the reader and the image of the gadget are as they were. The mode of the gadget may
-- differ.
abbrev pub IsUntouched : Media → Media → Type 0
IsUntouched s t =
    (t.current ≡ s.current) × (t.nbd ≡ s.nbd) × (t.reader ≡ s.reader) × (t.lun_file ≡ s.lun_file)

-- A step that fails over a mounted medium and leaves it.
Refuses : VirtualMediaState → Action Media → Type 0
Refuses other f = (s : Media) → s.current ≡ some other → ((f s).1 ≡ false) × IsUntouched s (f s).0

and_then-Refuses :
    (other : VirtualMediaState) (f g : Action Media)
    → Keeps IsUntouched f
    → Refuses other g
    → Refuses other (and_then f g)
unfolding and_then Refuses
and_then-Refuses other f g hf hg s h =
    let first = hf s in let second = hg (f s).0 (first.0 ∙ h) in ground (arith, first, second)

refuse-Refuses : (other : VirtualMediaState) → Refuses other refuse
unfolding Refuses
refuse-Refuses other s h = (refl, (refl, refl, refl, refl))

claim-Refuses :
    (other state : VirtualMediaState) (g : Action Media) → Refuses other (and_then (claim state) g)
unfolding Refuses and_then claim
claim-Refuses other state g s h = rw (h, and_then, claim) (refl, (h, refl, refl, refl))

call-IsUntouched : (succeeds : ℕ → Bool) → Keeps IsUntouched (call succeeds)
unfolding attempt
call-IsUntouched succeeds s = ground arith

set_mass_storage_mode-IsUntouched :
    (succeeds : ℕ → Bool) (b : Bool) → Keeps IsUntouched (set_mass_storage_mode succeeds b)
set_mass_storage_mode-IsUntouched succeeds b s =
    let same = set_mass_storage_mode-SameStatics succeeds b s in
    (same.0, same.1, same.2, set_mass_storage_mode_file succeeds b s)

remote_mount-Refuses :
    (succeeds : ℕ → Bool) (other state : VirtualMediaState) (reader : RemoteReader)
    → Refuses other (remote_mount succeeds state reader)
remote_mount-Refuses succeeds other state reader =
    and_then-Refuses other (set_mass_storage_mode succeeds (is_cdrom state.mode))
      (and_then (claim state) (serve_remote succeeds reader))
      (set_mass_storage_mode-IsUntouched succeeds (is_cdrom state.mode))
      (claim-Refuses other state (serve_remote succeeds reader))

mount_with_http-Refuses :
    (succeeds : ℕ → Bool) (found : Option ℤ) (url : Text) (mode : VirtualMediaMode)
    (other : VirtualMediaState)
    → Refuses other (mount_with_http succeeds found url mode)
unfolding mount_with_http
mount_with_http-Refuses succeeds none url mode other =
    let mode_then = and_then (set_mass_storage_mode succeeds (is_cdrom mode)) refuse in
    and_then-Refuses other (call succeeds) mode_then (call-IsUntouched succeeds) (
      and_then-Refuses other (set_mass_storage_mode succeeds (is_cdrom mode)) refuse
        (set_mass_storage_mode-IsUntouched succeeds (is_cdrom mode)) (refuse-Refuses other))
mount_with_http-Refuses succeeds (some size) url mode other =
    let state : VirtualMediaState = record {
      source = http;
      mode = mode;
      filename = none;
      url = some url;
      size = size;
    } in
    let reader = http_reader url size in
    and_then-Refuses other (call succeeds) (remote_mount succeeds state reader)
      (call-IsUntouched succeeds) (remote_mount-Refuses succeeds other state reader)

abbrev pub mode_text : VirtualMediaMode → Text
mode_text mode = if is_cdrom mode then codes "1" else codes "0"

-- Where every call succeeds, a refused mount has written its mode.
refused_mode :
    (name : Text) (size : ℤ) (mode : VirtualMediaMode) (other : VirtualMediaState) (s : Media)
    → s.current ≡ some other
    → (mount_with_webrtc (λ n. true) name size mode s).0.lun_cdrom ≡ mode_text mode
unfolding mount_with_webrtc set_mass_storage_mode write_file attempt and_then and_also claim
refused_mode name size mode other s h = ground arith

-- While a medium is mounted, both remote mounts fail. They leave the medium, its reader, its device and the
-- image of the gadget as they are, but not the mode of the gadget: where every call succeeds, the refused
-- mount of a browser's disk puts the gadget into its own mode.
pub remote_mounts_refused :
    (succeeds : ℕ → Bool) (found : Option ℤ) (name : Text) (size : ℤ) (mode : VirtualMediaMode)
    (other : VirtualMediaState) (s : Media)
    → s.current ≡ some other
    → let (t, done) = mount_with_webrtc succeeds name size mode s in
      let (t', done') = mount_with_http succeeds found name mode s in
      (done ≡ false)
      × IsUntouched s t
      × (done' ≡ false)
      × IsUntouched s t'
      × ((mount_with_webrtc (λ n. true) name size mode s).0.lun_cdrom ≡ mode_text mode)
unfolding mount_with_webrtc Refuses
remote_mounts_refused succeeds found name size mode other s h =
    let state : VirtualMediaState = record {
      source = web_rtc;
      mode = mode;
      filename = some name;
      url = none;
      size = size;
    } in
    let (failed, same) = remote_mount-Refuses succeeds other state (webrtc_reader size) s h in
    let (failed', same') = mount_with_http-Refuses succeeds found name mode other s h in
    (failed, same, failed', same', refused_mode name size mode other s h)

-- ===== src/Storage/Runs.antt =====
-- Concrete images, mounts and uploads.
use rustkvm.Common.{
  ℕ, ◌+◌, ◌-◌, ◌≡◌, refl, List, [], ◌∷◌, ◌++◌, none, some, Bool, true, false, not, take, drop,
  length, arith, ◌==◌, min, if◌then◌else◌,
}
use rustkvm.Common.Int.{ℤ, pos, add_i64}
use rustkvm.Common.Text.{codes}
use rustkvm.Common.Map.{lookup}
use rustkvm.Storage.Names.{
  sanitize_filename, components, file_name, cdrom, disk, incomplete, built_in_image_mode,
}
use rustkvm.Storage.Sanitize.{IsImageName, sanitize_filename-IsImageName}
use rustkvm.Storage.Device.{Reader, http_read_at}
use rustkvm.Storage.Image.{reads, reads-Serves, device_at}
use rustkvm.Storage.Readers.{http_read_at-Serves}
use rustkvm.Storage.Upload.{
  Images, as_len, ieq, complete_upload, append_upload_data, start_storage_file_upload,
}
use rustkvm.Storage.Roundtrip.{upload, bytes_of, upload_roundtrip}
use rustkvm.Storage.Media.{
  Media, VirtualMediaState, storage, http, http_reader, is_cdrom, mount_with_http,
  mount_with_webrtc,
}
use rustkvm.Storage.Mounting.{IsMounted, mount_with_http-IsMounted}
use rustkvm.Storage.Refused.{IsUntouched, remote_mounts_refused}
use rustkvm.Storage.Url.{Response, new_http_reader, check_mount_url}
use rustkvm.Storage.Checked.{Agrees, check_mount_url-Agrees}
use rustkvm.Common.Text.{split, split_from, char_lowercase}

abbrev small_image : List ℕ
small_image = 10 ∷ 20 ∷ 30 ∷ []

-- A server that answers every range of an image.
abbrev ideal : List ℕ → Reader
ideal image (pos first) (pos last) = some (take (last + 1 - first) (drop first image))
ideal image _ _ = none

reads-Serves_example :
    reads (http_read_at (ideal small_image)) (2 ∷ 2 ∷ []) (device_at small_image 0)
    ≡ some (take 4 small_image, device_at small_image (0 + min 4 3))
reads-Serves_example =
    reads-Serves (http_read_at (ideal small_image)) small_image (2 ∷ 2 ∷ []) 0
      (http_read_at-Serves (ideal small_image) small_image (omega arith) (λ first last a b. refl))
      (omega arith) (omega arith)

sanitize_filename-IsImageName_example : IsImageName (codes "win.iso")
unfolding sanitize_filename components file_name split split_from
sanitize_filename-IsImageName_example =
    sanitize_filename-IsImageName (codes "isos/./win.iso") (codes "win.iso") refl

-- An upload of five bytes of which two are there from an abandoned one.
abbrev folder : Images
folder = record {
  dir = (codes "a.img" ++ incomplete, 0) ∷ [];
  contents = λ i. if i == 0 then 1 ∷ 2 ∷ [] else [];
  made = 1;
  pending = [];
}

upload_roundtrip_example :
    let (done, s') =
      upload (codes "upload_1") (codes "a.img") (pos 5) ((3 ∷ []) ∷ (4 ∷ 5 ∷ []) ∷ []) folder in
    let bytes : List ℕ = 1 ∷ 2 ∷ 3 ∷ 4 ∷ 5 ∷ [] in
    let whole = ieq (as_len (length bytes)) (pos 5) in
    (done ≡ true)
    × (whole ≡ true
        → (bytes_of (codes "a.img") s' ≡ bytes)
          × (lookup (codes "a.img" ++ incomplete) s'.dir ≡ none))
    × (whole ≡ false
        → (bytes_of (codes "a.img" ++ incomplete) s' ≡ bytes)
          × (lookup (codes "a.img") s'.dir ≡ none))
unfolding sanitize_filename components file_name split split_from
upload_roundtrip_example =
    upload_roundtrip (codes "upload_1") (codes "a.img") (codes "a.img") (pos 5)
      ((3 ∷ []) ∷ (4 ∷ 5 ∷ []) ∷ []) folder refl refl

abbrev mounted_image : VirtualMediaState
mounted_image = record {
  source = storage;
  mode = disk;
  filename = some (codes "a.img");
  url = none;
  size = pos 5;
}

abbrev over_image : Media
over_image = record {
  current = some mounted_image;
  nbd = none;
  reader = none;
  lun_file = codes "/userdata/rustkvm/images/a.img";
  lun_cdrom = codes "0";
  tried = 0;
}

abbrev idle : Media
idle = record over_image { current = none; lun_file = [] }

abbrev always_succeeds : ℕ → Bool
always_succeeds n = true

remote_mounts_refused_example :
    let (t, done) = mount_with_webrtc always_succeeds (codes "b.iso") (pos 7) cdrom over_image in
    let (t', done') =
      mount_with_http always_succeeds (some (pos 7)) (codes "b.iso") cdrom over_image in
    (done ≡ false)
    × IsUntouched over_image t
    × (done' ≡ false)
    × IsUntouched over_image t'
    × ((mount_with_webrtc (λ n. true) (codes "b.iso") (pos 7) cdrom over_image).0.lun_cdrom
        ≡ codes "1")
unfolding is_cdrom
remote_mounts_refused_example =
    remote_mounts_refused always_succeeds (some (pos 7)) (codes "b.iso") (pos 7) cdrom mounted_image
      over_image refl

abbrev server_image : VirtualMediaState
server_image = record {
  source = http;
  mode = cdrom;
  filename = none;
  url = some (codes "http://h/x");
  size = pos 7;
}

mount_with_http-IsMounted_example :
    (size : ℤ) × (some (pos 7) ≡ some size)
    × IsMounted
        (record server_image { size = size })
        (http_reader (codes "http://h/x") size)
        (mount_with_http always_succeeds (some (pos 7)) (codes "http://h/x") cdrom idle).0
unfolding mount_with_http
mount_with_http-IsMounted_example =
    mount_with_http-IsMounted always_succeeds (some (pos 7)) (codes "http://h/x") cdrom idle refl

-- The fifth call, which starts the device, fails: the medium stays recorded.
failed_mount_stays :
    (mount_with_http (λ n. not (n == 4)) (some (pos 7)) (codes "http://h/x") cdrom idle).0.current
    ≡ some server_image
unfolding mount_with_http
failed_mount_stays = refl

abbrev plain_response : Response
plain_response = record {
  status = 206;
  content_length = none;
  content_range = some (codes "bytes 0-0/*");
}

check_mount_url-Agrees_example :
    Agrees true
      (new_http_reader true none (some plain_response) (codes "http://h/x"))
      (check_mount_url true none (some plain_response) (codes "http://h/x"))
check_mount_url-Agrees_example =
    check_mount_url-Agrees true none (some plain_response) (codes "http://h/x")

-- A chunk that is written by half and sent again leaves more bytes in the file than are counted.
abbrev retried : Images
retried =
    let started =
      (start_storage_file_upload true true (codes "upload_1") (codes "a.img") (pos 5) folder).1 in
    let half = (append_upload_data (some 1) (codes "upload_1") (3 ∷ 4 ∷ 5 ∷ []) started).1 in
    let again = (append_upload_data none (codes "upload_1") (3 ∷ 4 ∷ 5 ∷ []) half).1 in
    (complete_upload true (codes "upload_1") again).1

retried_upload : bytes_of (codes "a.img") retried ≡ 1 ∷ 2 ∷ 3 ∷ 3 ∷ 4 ∷ 5 ∷ []
unfolding complete_upload append_upload_data start_storage_file_upload sanitize_filename split
    add_i64
retried_upload = refl

iso_is_cdrom : built_in_image_mode (codes "netboot.xyz.ISO") ≡ cdrom
unfolding built_in_image_mode char_lowercase
iso_is_cdrom = refl

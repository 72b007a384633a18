-- ===== src/Storage/Media.antt =====
-- app/src/hardware/usb/storage.rs: the mount of a virtual medium. Every call that may fail has a number,
-- and which of them succeed is a parameter; so are the size that a remote server or the file system gives
-- and the files of the images folder.
use rustkvm.Common.{
  ℕ, ◌+◌, List, [], ◌∷◌, ◌++◌, Option, none, some, Bool, true, false, length, if◌then◌else◌,
}
use rustkvm.Common.Action.{Action, and_then, and_also, always, refuse}
use rustkvm.Common.Int.{ℤ, pos}
use rustkvm.Common.Text.{codes, text_eq, trim}
use rustkvm.Storage.Names.{
  Text, VirtualMediaMode, cdrom, disk, built_in_image_mode, sanitize_filename, file_name,
}

pub data VirtualMediaSource : Type 0 where
  web_rtc : VirtualMediaSource
  http : VirtualMediaSource
  storage : VirtualMediaSource

pub record VirtualMediaState : Type 0 where
  pub source : VirtualMediaSource
  pub mode : VirtualMediaMode
  pub filename : Option Text
  pub url : Option Text
  pub size : ℤ

-- The reader that is current: of a server, or of a browser's disk.
pub data RemoteReader : Type 0 where
  http_reader : Text → ℤ → RemoteReader
  webrtc_reader : ℤ → RemoteReader

-- `NbdDevice`, whose state is there while the device is served.
pub record NbdDevice : Type 0 where
  pub served : Bool

-- The statics of the modules, the two files of the gadget's drive, and the number of calls tried.
pub record Media : Type 0 where
  pub current : Option VirtualMediaState
  pub nbd : Option NbdDevice
  pub reader : Option RemoteReader
  pub lun_file : Text
  pub lun_cdrom : Text
  pub tried : ℕ

abbrev pub images_folder : Text
images_folder = codes "/userdata/rustkvm/images"

abbrev pub nbd_path : Text
nbd_path = codes "/dev/nbd0"

abbrev pub newline : Text
newline = 10 ∷ []

unfoldable pub is_cdrom : VirtualMediaMode → Bool
is_cdrom cdrom = true
is_cdrom disk = false

-- `Path::join` of the folder and a relative name.
abbrev pub in_folder : Text → Text
in_folder name = images_folder ++ (b'/' ∷ name)

unfoldable pub set_current : VirtualMediaState → Media → Media
set_current state s = record s { current = some state }

unfoldable pub set_reader : Option RemoteReader → Media → Media
set_reader reader s = record s { reader = reader }

-- `NbdDevice::close` of the device that is there, and its removal.
unfoldable pub stop_nbd : Media → Media
stop_nbd s = record s { nbd = none }

-- The device is made when there is none, before it is tried to start.
unfoldable pub ensure_nbd : Media → Media
ensure_nbd s = elim s.nbd [
  | none ↦ record s { nbd = some (record { served = false }) }
  | some _ ↦ s
]

abbrev pub serve_nbd : Media → Media
serve_nbd s = record s { nbd = some (record { served = true }) }

-- The check for another medium and the write of the new one, under one lock.
unfoldable pub claim : VirtualMediaState → Action Media
claim state s = elim s.current [
  | none ↦ (record s { current = some state }, true)
  | some _ ↦ (s, false)
]

module _ (succeeds : ℕ → Bool) where
  -- A call that may fail, and what it does when it succeeds.
  unfoldable pub attempt : (Media → Media) → Action Media
  attempt f s =
      if succeeds s.tried
      then (record (f s) { tried = s.tried + 1 }, true)
      else (record s { tried = s.tried + 1 }, false)

  abbrev pub call : Action Media
  call = attempt (λ s. s)

  -- `resolve_mass_storage_lun0`.
  abbrev pub resolve_mass_storage_lun0 : Action Media
  resolve_mass_storage_lun0 = call

  -- `write_file`: what fails in the open of the file or in filling the writer is an error; what fails in the
  -- flush, which is what changes the file, is ignored.
  unfoldable pub write_file : (Media → Media) → Action Media
  unfolding attempt and_then and_also
  write_file f = and_then call (and_also (attempt f) (always (λ s. s)))

  abbrev pub write_lun_file : Text → Action Media
  write_lun_file text = write_file (λ s. record s { lun_file = text })

  unfoldable pub set_mass_storage_image : Text → Action Media
  unfolding write_file and_then and_also
  set_mass_storage_image image_path = and_then resolve_mass_storage_lun0 (
      and_also (write_lun_file newline)
        (and_then (write_lun_file image_path) (write_lun_file image_path)))

  unfoldable pub set_mass_storage_mode : Bool → Action Media
  unfolding write_file and_then
  set_mass_storage_mode as_cdrom =
      and_then resolve_mass_storage_lun0
        (write_file (λ s. record s { lun_cdrom = if as_cdrom then codes "1" else codes "0" }))

  -- `start_nbd`: `NbdDevice::start` does nothing while the device is served.
  unfoldable pub start_nbd : Action Media
  unfolding attempt ensure_nbd
  start_nbd s =
      let started = attempt serve_nbd (ensure_nbd s) in
      elim s.nbd [ none ↦ started | some device ↦ if device.served then (s, true) else started ]

  abbrev pub ensure_images_folder : Action Media
  ensure_images_folder = call

  -- The reader is set, the device served and given to the gadget.
  unfoldable pub serve_remote : RemoteReader → Action Media
  unfolding set_reader and_then start_nbd set_mass_storage_image
  serve_remote reader =
      and_then (always (set_reader (some reader)))
        (and_then start_nbd (set_mass_storage_image nbd_path))

  -- `mount_with_http`, with the size that `HttpRangeReader::new` finds.
  unfoldable pub mount_with_http : Option ℤ → Text → VirtualMediaMode → Action Media
  unfolding and_then set_mass_storage_mode claim serve_remote is_cdrom
  mount_with_http found url mode = and_then ensure_images_folder (
      and_then (set_mass_storage_mode (is_cdrom mode)) (elim found [
        | none ↦ refuse
        | some size ↦
            let state : VirtualMediaState = record {
              source = http;
              mode = mode;
              filename = none;
              url = some url;
              size = size;
            } in
            and_then (claim state) (serve_remote (http_reader url size))
      ]))

  unfoldable pub mount_with_webrtc : Text → ℤ → VirtualMediaMode → Action Media
  unfolding and_then set_mass_storage_mode claim serve_remote is_cdrom
  mount_with_webrtc filename size mode =
      let state : VirtualMediaState = record {
        source = web_rtc;
        mode = mode;
        filename = some filename;
        url = none;
        size = size;
      } in
      and_then (set_mass_storage_mode (is_cdrom mode))
        (and_then (claim state) (serve_remote (webrtc_reader size)))

  -- `mount_with_storage`, with the lengths of the files that are there.
  unfoldable pub mount_with_storage : (Text → Option ℤ) → Text → VirtualMediaMode → Action Media
  unfolding and_then set_mass_storage_mode set_mass_storage_image set_current is_cdrom
  mount_with_storage metadata filename mode = elim (sanitize_filename filename) [
    | none ↦ refuse
    | some name ↦ and_then ensure_images_folder (elim (metadata (in_folder name)) [
      | none ↦ refuse
      | some len ↦
          let state : VirtualMediaState = record {
            source = storage;
            mode = mode;
            filename = some name;
            url = none;
            size = len;
          } in
          and_then (set_mass_storage_mode (is_cdrom mode))
            (and_then (set_mass_storage_image (in_folder name)) (always (set_current state)))
    ])
  ]

  -- `mount_built_in_image`, with the built-in images; one that is not in the folder is written there first.
  unfoldable pub mount_built_in_image :
      (Text → Option ℤ) → (Text → Option (List ℕ)) → Text → Action Media
  unfolding and_then mount_with_storage
  mount_built_in_image metadata built_in filename = elim (sanitize_filename filename) [
    | none ↦ refuse
    | some name ↦
        let mode = built_in_image_mode name in
        and_then ensure_images_folder (elim (metadata (in_folder name)) [
          | some _ ↦ mount_with_storage metadata name mode
          | none ↦ elim (built_in name) [
            | none ↦ refuse
            | some bytes ↦
                let written : Text → Option ℤ = (λ p.
                  if text_eq p (in_folder name) then some (pos (length bytes)) else metadata p) in
                and_then call (and_then call (mount_with_storage written name mode))
          ]
        ])
  ]

  -- What `unmount_image` does before its sleep.
  unfoldable pub clear_image : Action Media
  clear_image = set_mass_storage_image newline

  -- And behind it.
  unfoldable pub finish_unmount : Action Media
  unfolding and_also stop_nbd set_reader
  finish_unmount = and_also (always stop_nbd) (
      and_also (set_mass_storage_mode false)
        (always (λ s. set_reader none (record s { current = none }))))

  unfoldable pub unmount_image : Action Media
  unfolding and_also finish_unmount
  unmount_image = and_also clear_image finish_unmount

-- `set_initial_virtual_media_state`, with what the reads of the gadget's files give and the lengths of
-- files.
unfoldable pub set_initial_virtual_media_state :
    Option Text → Option Text → (Text → Option ℤ) → Media → Media
unfolding set_current
set_initial_virtual_media_state cdrom_text image_text metadata s = elim image_text [
  | none ↦ s
  | some text ↦
      let disk_path = trim text in
      let enabled : Bool = elim cdrom_text [
        | none ↦ false
        | some t ↦ text_eq (trim t) (codes "1")
      ] in
      let mode : VirtualMediaMode = if enabled then cdrom else disk in
      let len : ℤ = elim (metadata disk_path) [ none ↦ pos 0 | some n ↦ n ] in
      if text_eq disk_path []
      then s
      else if text_eq disk_path nbd_path
      then set_current
          (record {
            source = http;
            mode = mode;
            filename = none;
            url = some (codes "/");
            size = pos 1;
          })
          s
      else set_current
          (record {
            source = storage;
            mode = mode;
            filename = file_name disk_path;
            url = none;
            size = len;
          })
          s
]

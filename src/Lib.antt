-- ===== src/Lib.antt =====
-- RustKVM: a KVM over IP. The development models the parts of the program that carry its own logic:
-- the input path from the wire to the USB gadget, the link that closes and reopens the gadget's
-- files, the login with its limiter and the configuration, virtual media and uploads, the power
-- controls and their MQTT commands, and the watch over the video capture. A browser sends frames
-- over a data channel; the server parses a frame (HidRpc), applies it to the state of the keys and
-- queues a report (Hid), and a thread writes the reports to the gadget's files; text and key
-- combinations are turned into macros of the same wire format (Keymap); the poller of the USB state
-- suspends and resumes the files (Hid/Link); a login asks the limiter first (Auth, RateLimit), and
-- its session stands in the configuration (Config); images and uploads become the gadget's drive
-- (Storage); a command of the broker acts on the power controls and the drive (Mqtt, Dc, Atx); the
-- jiggler moves the mouse of an idle device (Jiggler, Hid); and the supervisor rebuilds a capture
-- that stalls and replugs a receiver that relocks (Supervisor, Relock).
--
-- The files and the code they model, each definition under the name of the Rust function:
--
-- - HidRpc, HidRpc/Payload, HidRpc/MacroReport: crates/rkvm-proto/src/hidrpc.rs. A byte is a number
--   below 256, a frame a list of bytes; `Result` has a third outcome `panic` for an index out of range.
--   HidRpc/Frame and the children of HidRpc/MacroReport hold the proofs.
-- - Keymap, Keymap/Macro: crates/rkvm-proto/src/keymap.rs. Text is a list of code points.
-- - Hid/Keys, Hid/Device, Hid/Writer: app/src/hardware/usb/hid.rs. The bounded channel is a list with
--   its depth; the outcomes of the system calls are arguments; the clock is an argument in
--   milliseconds. Hid/Held is the abstract view of the key array, the list of the keys held;
--   Hid/Indexes has `apply_keypress` with its indexes checked.
-- - Hid/Link: app/src/hardware/usb/mod.rs, one tick at a time.
-- - RateLimit: app/src/web/ratelimit.rs. The map of entries is a function, an instant a number of
--   milliseconds, and each operation one step, as its lock makes it.
-- - Dispatcher, Dispatcher/Macro: app/src/hidrpc/dispatcher.rs. `Dispatcher` is the module's statics; a
--   macro's task, a cancel and a clear are cut into the events that other threads see apart, and
--   Dispatcher/Lane has the events as a relation. Epochs wrap at 64 bits.
-- - Atx: app/src/power/atx.rs. Which writes to sysfs succeed is a function from their number; the effects
--   are a list.
-- - Browser: crates/rkvm-web/src/hid/mod.rs, the keyboard listeners; what the page says is an argument.
-- - LogBuffer: app/src/observability/log_buffer.rs. Text is a list of code points.
-- - Vision: crates/rkvm-proto/src/vision.rs and the integer geometry of crates/rkvm-vision/src/det.rs,
--   rec.rs and signature.rs.
-- - Storage: app/src/hardware/usb/storage.rs and the reader of app/src/hardware/block_device.rs. The mounts
--   are steps on the statics and the two files of the gadget's drive; uploads are steps on a directory
--   and the files that open handles keep.
-- - Config: app/src/config/types.rs (the validation) and app/src/config/manager.rs.
-- - Auth: app/src/web/auth.rs, the setup of app/src/web/device.rs and app/src/middleware.rs, on the
--   configuration of Config and the limiter of RateLimit.
-- - Vision/Lines: the cut of a wide line of crates/rkvm-vision/src/rec.rs; its fuel is one more than the
--   number of columns, as every round moves at least one column on.
-- - Dc: app/src/power/dc.rs, with the change of the active extension on Atx and Config.
-- - Edid: app/src/hardware/edid.rs; write_edid gives one or two blocks of 128 bytes.
-- - Mqtt: app/src/mqtt/commands.rs on Dc, Atx and Storage; the tasks that app/src/mqtt/stubs.rs spawns are
--   kept as a list, and any of them runs next, an unmount up to its sleep and then the rest.
-- - Jiggler: app/src/hardware/jiggler.rs on the device of Hid; a loop is the number of its token.
-- - Relock: the watch over the relock loop of app/src/hardware/v4l2.rs and the backoff of app/src/video.rs.
-- - Supervisor: the capture supervisor of app/src/video.rs on Relock, one tick at a time.
--
-- Loops are structural on a list or a count that the source bounds, so no fuel is needed, but for two:
-- the writer's loop over the outcomes of `write` answers `none` when the outcomes given are used up
-- before the loop returns, and the loop of split_line has one round more than there are columns.
--
-- Not modelled: the media pipeline, the vision runtime, the traffic with the MQTT broker, the cloud
-- client, the network and TLS set-up, the format of the configuration file and the views of the browser
-- application, which are calls of libraries and of the operating system, and the races of callers on
-- the mutexes of `Hid`.
--
-- Common holds the shared names: Boolean tests, lists, bytes, integers and text.
pub mod Atx
pub mod Auth
pub mod Browser
pub mod Common
pub mod Config
pub mod Dc
pub mod Dispatcher
pub mod Edid
pub mod Hid
pub mod HidRpc
pub mod Jiggler
pub mod Keymap
pub mod LogBuffer
pub mod Mqtt
pub mod RateLimit
pub mod Relock
pub mod Storage
pub mod Supervisor
pub mod Vision

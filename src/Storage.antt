-- ===== src/Storage.antt =====
-- app/src/hardware/usb/storage.rs and app/src/hardware/block_device.rs: the virtual media that the host
-- sees as a USB drive, the images in the device's folder and their upload, and the reader that serves a
-- remote image.
pub mod Checked
pub mod Device
pub mod Image
pub mod Media
pub mod Mounting
pub mod Names
pub mod Refused
pub mod Roundtrip
pub mod Sanitize
pub mod Upload
pub mod Url
pub mod Readers
mod Runs

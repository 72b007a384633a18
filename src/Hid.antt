-- ===== src/Hid.antt =====
-- app/src/hardware/usb/hid.rs: the USB HID gadget. The children model the keys held down, the reports
-- that `Hid` queues, and the thread that writes them to the gadget files.
pub mod Keys
pub mod Held
pub mod Slots
pub mod Keypress
pub mod Modifiers
pub mod Indexes
pub mod Device
pub mod Reports
pub mod Sent
pub mod Writer
pub mod Closing
pub mod Link
mod Runs

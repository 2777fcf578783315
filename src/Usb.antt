-- ===== src/Usb.antt =====
-- The USB devices of the daemon: src/usb.c.
pub mod Serial
pub mod Configuration
pub mod Transfers
pub mod Modes
pub mod Events
pub mod Discovery

-- ===== src/Preflight.antt =====
-- The worker that pairs a device before the clients see it: src/preflight.c, built with libimobiledevice.
pub mod Lockdown
pub mod Contact
pub mod Product
pub mod Worker
pub mod Wait
pub mod Quiet
pub mod Balanced

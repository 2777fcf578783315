-- ===== src/Main.antt =====
-- The daemon's process: src/main.c.
pub mod Host
pub mod Loop
pub mod Options
pub mod Instance
pub mod Privileges
pub mod Socket
pub mod Daemon
pub mod Service

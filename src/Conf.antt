-- ===== src/Conf.antt =====
-- src/conf.c: the daemon's configuration directory, its system BUID and the pairing records.
pub mod Uuid
pub mod Paths
pub mod Records
pub mod Utf16

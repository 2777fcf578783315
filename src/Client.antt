-- ===== src/Client.antt =====
-- src/client.c: the clients of the daemon's socket.
pub mod Keeps
pub mod Output
pub mod Socket
pub mod Broadcast
pub mod Reply
pub mod Command
pub mod Process

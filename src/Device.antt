-- ===== src/Device.antt =====
-- src/device.c: the devices, their connections, and the packets exchanged with them.
pub mod Packet
pub mod Ports
pub mod Window
pub mod Lookup
pub mod Teardown
pub mod Info
pub mod Connect
pub mod Transfer
pub mod Gather
pub mod Input
pub mod Registry
pub mod Timeout

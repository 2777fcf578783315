-- ===== src/Tests.antt =====
-- Runs of the model on concrete inputs.
mod Sample
mod Wire
mod Sound
mod Ports
mod Devices
mod Clients
mod Conf
mod Usb
mod Main
mod Log
mod Preflight

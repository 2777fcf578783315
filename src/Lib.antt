-- ===== src/Lib.antt =====
-- usbmuxd: a daemon that lets programs on the host open TCP connections to services on Apple devices
-- over USB. A client of its Unix socket sends requests (list devices, listen, connect to a port of a
-- device, pairing records). For a connect request the daemon speaks a reduced TCP inside packets of a
-- multiplexing protocol, over two USB pipes of the device, and then passes bytes both ways.
--
-- Parts, and the files that model them
--   State.antt, State/Monad.antt: the structs mux_device and mux_connection (src/device.c), mux_client
--     (src/client.c), usb_device and mode_context (src/usb.c); the globals of the files as one record
--     `World`; the monad of the operations. Pointers are numbers; an object that was freed, or was
--     never initialised, is absent, and its use ends the run in `fault`.
--   Env.antt: what comes from outside as one record: libusb, sockets, the clock, realloc, rand, the
--     file system, threads, the collections of libimobiledevice-glue and libplist. A call that may
--     answer differently each time gets the number of the call. The theorems that need the documented
--     behaviour of the collections or of the files name it as a hypothesis.
--   Wire.antt: the headers of mux packets and of TCP segments, in network order (src/device.c).
--   Device/Packet: send_packet, send_tcp and send_anon_rst, with usb_send of src/usb.c.
--   Device/Ports, Device/Connect: get_next_device_id, find_sport and device_start_connect.
--   Device/Window, Device/Transfer: update_connection, device_client_process, send_tcp_ack and
--     connection_device_input.
--   Device/Teardown: connection_teardown, device_abort_connect and client_close, which call each
--     other: `teardown_with` takes the closing of the client as an argument, `abort_with` is what
--     client_close calls of it.
--   Device/Gather, Device/Input: device_data_input, first the packets in pieces and then the dispatch to
--     device_version_input, device_control_input and device_tcp_input.
--   Device/Registry, Device/Info, Device/Timeout, Device/Lookup: the list of devices.
--   Client/Output: output_buffer_add_message and the messages (src/client.c, src/usbmuxd-proto.h).
--   Client/Socket: client_read, client_write, client_set_events and client_notify_connect.
--   Client/Broadcast: what listening clients are told, with preflight_worker_device_add of
--     src/preflight.c.
--   Client/Reply, Client/Command: handle_command and its answers.
--   Client/Process: client_accept, input_buffer_process, output_buffer_process, client_process.
--   Conf.antt, Conf/Paths, Conf/Records, Conf/Uuid, Conf/Utf16: src/conf.c.
--   Client/Keeps, with Leaves and Serves: rules for proofs on all clients. The modules named Sound,
--     Keeps, Leaves or Untouched hold the lemmas that lead to the invariant of Main/Loop/Sound.
--   Usb/Serial, Usb/Configuration, Usb/Transfers, Usb/Modes: src/usb.c, from the addition of a device over
--     its mode, its configuration and its serial number to the transfers and the end of the device.
--   Usb/Events: what libusb calls back, as values of `UsbEvent` that the environment lists for each call
--     of libusb_handle_events_timeout. usb_disconnect handles events itself, so that `handle_events`
--     and usb_disconnect are one recursion: `usb_disconnect_with` takes the handling as an argument.
--   Usb/Discovery: usb_discover, usb_get_timeout, usb_process, usb_process_timeout, usb_init and
--     usb_shutdown.
--   Utils.antt: struct fdlist of src/utils.c.
--   Env/Lockdown: what src/preflight.c takes from libimobiledevice. Preflight/Lockdown, Contact, Product,
--     Worker and Wait: preflight_worker_handle_device_add and np_callback. A worker runs as one
--     operation until it waits for the user; `Incident` has what can happen then: a notification, the
--     removal of the device, and a second that has passed, in any order. Two attempts at the contact
--     are enough, since the second finds no pairing record to remove. Preflight/Quiet and Balanced hold
--     rules for proofs on a worker, State/Monad/Preserves those for any invariant.
--   Main/Host: what src/main.c asks of the system; Main/Options: parse_opts; Main/Instance: the lock file
--     and other instances; Main/Daemon: daemonize, notify_parent, the writing of the lock file;
--     Main/Socket: create_socket; Main/Privileges: the drop of privileges; Main/Loop: handle_signal and
--     main_loop; Main/Service: main as a whole, whose parts return what becomes of the process.
--   Log.antt: src/log.c. The other operations leave their messages out.
--   Tests.antt: a small world and the runs on it.
-- A child module named for what it proves stands below the module of the operations.
--
-- Integers are natural numbers; where the source's uint16_t, uint32_t or uint64_t may wrap, the model
-- does (`add16`, `add32`, `sub32`, `sub64`). An int result is an integer ℤ.
--
-- Loops: find_sport gets 65536 rounds and the search for a device id one more than there are devices,
-- which suffice. Only the flush of a dying connection to its client, which goes on for as
-- long as the socket takes bytes, has the parameter `fuel`; a run that needs more rounds ends as if
-- the flush was given up, so theorems on it hold for each fuel. mkdir_with_parents has one round for
-- each character of the path.
--
-- The rounds of handling events, nested or in a row, are bounded by `rounds`, and the turns of main_loop
-- and usb_process_timeout by `turns`: a run that needs more has no outcome (it ends in `fault`), as a
-- wait or a loop that never ends has none. The search of a configuration and the reading of a serial
-- number need no bound.
--
-- Not modelled: threads and the two mutexes (each operation runs by itself), the texts that the
-- operations log, the text of usage and the raised limit of descriptors in src/main.c,
-- and the Windows and Apple branches of config_get_config_dir in src/conf.c. libusb cancels
-- and closes as it is told, which leaves no trace in the state; libusb_has_capability counts as part
-- of the registration for hotplug events. The int of a timeout is not given its wrap, since it is
-- computed from times a second apart. Memory past the bytes that a transfer or a socket
-- brought reads as 0, or is not read as text.
pub mod Base
pub mod Wire
pub mod State
pub mod Env
pub mod Conf
pub mod Client
pub mod Device
pub mod Usb
pub mod Utils
pub mod Preflight
pub mod Main
pub mod Log
pub mod Tests

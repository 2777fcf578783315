-- ===== src/State.antt =====
-- The state of the daemon: the objects that src/device.c, src/client.c and src/usb.c allocate, the
-- globals, and the effects on the outside. A pointer is a number, a freed object is absent from
-- its heap, and a use of an absent object is a fault.
pub mod Monad
use usbmuxd_win_mce.Base.{ℕ, Bool, List, Option}

-- `short events`: the two bits that the program uses.
pub record Events : Type 0 where
  pub pollin : Bool
  pub pollout : Bool

-- `enum mux_dev_state`
pub data MuxDevState : Type 0 where
  init active dead : MuxDevState

-- `enum mux_conn_state`
pub data MuxConnState : Type 0 where
  connecting connected refused dying dead : MuxConnState

-- `enum client_state`
pub data ClientState : Type 0 where
  command listen connecting1 connecting2 connected dead : ClientState

-- `struct mux_connection`. `ib_buf` holds the `ib_size` valid bytes; `flags` is its one bit.
pub record MuxConnection : Type 0 where
  pub dev : ℕ
  pub client : Option ℕ
  pub state : MuxConnState
  pub sport : ℕ
  pub dport : ℕ
  pub tx_seq : ℕ
  pub tx_ack : ℕ
  pub tx_acked : ℕ
  pub tx_win : ℕ
  pub rx_seq : ℕ
  pub rx_recvd : ℕ
  pub rx_ack : ℕ
  pub rx_win : ℕ
  pub max_payload : ℕ
  pub sendable : ℕ
  pub ack_pending : Bool
  pub ib_buf : List ℕ
  pub ib_capacity : ℕ
  pub ob_capacity : ℕ
  pub events : Events
  pub last_ack_time : ℕ

-- `struct mux_device`. `pktbuf` holds the `pktlen` bytes of a packet in pieces;
-- `connections` is `none` before `collection_init` has run on it.
pub record MuxDevice : Type 0 where
  pub usbdev : ℕ
  pub id : ℕ
  pub state : MuxDevState
  pub visible : Bool
  pub connections : Option (List ℕ)
  pub next_sport : ℕ
  pub pktbuf : List ℕ
  pub preflight_cb_data : Option ℕ
  pub version : ℕ
  pub rx_seq : ℕ
  pub tx_seq : ℕ

-- `struct mux_client`. `ob_buf` holds the `ob_size` bytes to be sent and `ib_buf` the `ib_size`
-- bytes received; `none` is a buffer that was freed. `info` is a handle of libplist.
pub record MuxClient : Type 0 where
  pub fd : ℕ
  pub ob_buf : Option (List ℕ)
  pub ob_capacity : ℕ
  pub ib_buf : Option (List ℕ)
  pub ib_capacity : ℕ
  pub events : Events
  pub devents : Events
  pub connect_tag : ℕ
  pub connect_device : ℕ
  pub state : ClientState
  pub proto_version : ℕ
  pub number : ℕ
  pub info : Option ℕ

-- What the program reads of `struct libusb_device_descriptor`.
pub record DeviceDescriptor : Type 0 where
  pub id_vendor : ℕ
  pub id_product : ℕ
  pub num_configurations : ℕ
  pub serial_number : ℕ

-- `struct usb_device` of src/usb.c. `serial` is the text before its terminator. A transfer is named by
-- the number of the call that first submitted it. The handle is not NULL while the object is there.
pub record UsbDevice : Type 0 where
  pub handle : ℕ
  pub bus : ℕ
  pub address : ℕ
  pub serial : List ℕ
  pub alive : Bool
  pub interface : ℕ
  pub ep_in : ℕ
  pub ep_out : ℕ
  pub rx_xfers : List ℕ
  pub tx_xfers : List ℕ
  pub max_packet_size : ℕ
  pub speed : ℕ
  pub devdesc : DeviceDescriptor

-- `struct mode_context` of src/usb.c.
pub record ModeContext : Type 0 where
  pub dev : ℕ
  pub bus : ℕ
  pub address : ℕ
  pub request : ℕ
  pub value : ℕ
  pub index : ℕ
  pub length : ℕ
  pub timeout : ℕ

-- Which function of src/usb.c libusb calls when a control transfer ends.
pub data ControlCallback : Type 0 where
  get_langid_callback get_serial_callback get_mode_cb switch_mode_cb : ControlCallback

-- A control transfer as src/usb.c fills it in: its setup packet, its callback with the user data, and
-- its timeout in milliseconds.
pub record ControlTransfer : Type 0 where
  pub handle : ℕ
  pub request_type : ℕ
  pub request : ℕ
  pub value : ℕ
  pub index : ℕ
  pub length : ℕ
  pub callback : ControlCallback
  pub user_data : ℕ
  pub timeout : ℕ

-- The globals of src/usb.c, and the flags of src/main.c that signals set.
pub record UsbGlobals : Type 0 where
  pub device_list : List ℕ
  pub poll_sec : ℕ
  pub poll_usec : ℕ
  pub devlist_failures : ℕ
  pub device_polling : Bool
  pub device_hotplug : Bool
  pub should_exit : Bool
  pub should_discover : Bool

-- `struct device_info`
pub record DeviceInfo : Type 0 where
  pub id : ℕ
  pub serial : List ℕ
  pub location : ℕ
  pub pid : ℕ
  pub speed : ℕ

abbrev pub Heap : Type 0 → Type 0
Heap A = ℕ → Option A

-- `struct cb_data` of src/preflight.c, which stands on the stack of its worker. `np` says whether the
-- client of the notification proxy is there.
pub record CbData : Type 0 where
  pub np : Bool
  pub is_device_connected : Bool
  pub is_finished : Bool

-- What a worker asks lockdownd for, besides answers.
pub data LockdownRequest : Type 0 where
  pairs : LockdownRequest
  tells_buid : List ℕ → LockdownRequest
  observes : LockdownRequest

-- The workers of src/preflight.c: the records that they wait on, how many clients of lockdownd and of
-- the notification proxy are open, and what was asked for (newest first).
pub record PreflightState : Type 0 where
  pub callbacks : Heap CbData
  pub lockdowns : ℕ
  pub proxies : ℕ
  pub requests : List LockdownRequest

-- The globals, the heaps, the allocator's next address, the number of calls that the environment
-- has answered, and what went out: USB transfers (newest first), socket writes, started workers.
pub record World : Type 0 where
  pub device_list : List ℕ
  pub client_list : List ℕ
  pub next_device_id : ℕ
  pub client_number : ℕ
  pub devices : Heap MuxDevice
  pub conns : Heap MuxConnection
  pub clients : Heap MuxClient
  pub usb : Heap UsbDevice
  pub next_ptr : ℕ
  pub calls : ℕ
  pub transfers : List (ℕ × List ℕ)
  pub socket_out : List (ℕ × List ℕ)
  pub workers : List DeviceInfo
  pub preflight : PreflightState
  -- src/conf.c: the directory, the files by their paths, and the directories made
  pub config_dir : Option (List ℕ)
  pub files : List ℕ → Option (List ℕ)
  pub made : List (List ℕ)
  -- src/usb.c and src/main.c: their globals, the contexts of mode requests, and the control transfers
  -- that libusb took (newest first)
  pub bus : UsbGlobals
  pub contexts : Heap ModeContext
  pub controls : List ControlTransfer

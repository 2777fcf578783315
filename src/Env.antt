-- ===== src/Env.antt =====
-- What the daemon takes from elsewhere: libusb, sockets, the clock, threads and realloc, the
-- collections of libimobiledevice-glue, and libplist. A call that can answer differently each time
-- takes the number of the call. Nothing is assumed of these here; a theorem names what it needs.
pub mod Lockdown
use usbmuxd_win_mce.Base.{
  ℕ, ◌≤◌, ◌≡◌, ◌≢◌, Bool, true, false, List, Option, some, String, ℤ, contains, length,
}
use usbmuxd_win_mce.Env.Lockdown.{LockdownLib}
use usbmuxd_win_mce.State.{Events, DeviceDescriptor, ControlTransfer}

-- The node types of libplist that the program asks for.
pub data PlistType : Type 0 where
  plist_dict plist_string plist_uint plist_data plist_other : PlistType

-- libplist, over its handles `plist_t`. Only these operations look inside a node.
pub record PlistLib : Type 0 where
  pub new_dict : ℕ
  pub new_array : ℕ
  pub new_string : List ℕ → ℕ
  pub new_uint : ℕ → ℕ
  pub new_bool : ℕ → ℕ
  pub new_data : List ℕ → ℕ
  pub dict_set_item : ℕ → String → ℕ → ℕ
  pub array_append_item : ℕ → ℕ → ℕ
  pub dict_get_item : ℕ → String → Option ℕ
  -- `plist_dict_copy_item target source key NULL`
  pub dict_copy_item : ℕ → ℕ → String → ℕ
  pub get_node_type : ℕ → PlistType
  pub get_string_val : ℕ → Option (List ℕ)
  pub get_uint_val : ℕ → ℕ
  pub get_data_val : ℕ → Option (List ℕ)
  pub to_xml : ℕ → Option (List ℕ)
  pub from_xml : List ℕ → Option ℕ
  -- `plist_from_memory` and `plist_read_from_file`, which read every format
  pub from_memory : List ℕ → Option ℕ
  pub dict_remove_item : ℕ → String → ℕ

pub data MkdirResult : Type 0 where
  mkdir_done mkdir_exists mkdir_failed : MkdirResult

-- `enum libusb_transfer_status`
pub data TransferStatus : Type 0 where
  completed error timed_out cancelled stall no_device overflow : TransferStatus

-- What libusb calls back while it handles events. A transfer's callback gets the user data of the
-- transfer, its status, and the bytes that arrived; `tx_done` and `rx_done` also the transfer. A control
-- transfer carries the handle and the data behind its setup packet. The last two are hotplug events.
pub data UsbEvent : Type 0 where
  tx_done : ℕ → ℕ → TransferStatus → UsbEvent
  rx_done : ℕ → ℕ → TransferStatus → List ℕ → UsbEvent
  langid_done : ℕ → TransferStatus → List ℕ → UsbEvent
  serial_done : ℕ → TransferStatus → List ℕ → UsbEvent
  mode_done : ℕ → ℕ → TransferStatus → List ℕ → UsbEvent
  switch_done : ℕ → ℕ → TransferStatus → List ℕ → UsbEvent
  arrived : ℕ → UsbEvent
  left : ℕ → UsbEvent

-- What the program reads of `struct libusb_interface_descriptor`, of the first alternate setting.
pub record InterfaceDescriptor : Type 0 where
  pub number : ℕ
  pub class : ℕ
  pub subclass : ℕ
  pub protocol : ℕ
  -- the addresses of its endpoints, `bNumEndpoints` many
  pub endpoints : List ℕ

pub record ConfigDescriptor : Type 0 where
  pub configuration_value : ℕ
  pub interfaces : List InterfaceDescriptor

-- `enum libusb_speed`
pub data UsbSpeed : Type 0 where
  speed_unknown speed_low speed_full speed_high speed_super speed_super_plus : UsbSpeed

-- libusb. A result is an error code; a call that fills in a value has `none` for a result that is an
-- error. A `libusb_device` and a device handle are numbers.
pub record LibUsb : Type 0 where
  pub get_device_list : ℕ → Option (List ℕ)
  pub get_bus_number : ℕ → ℕ
  pub get_device_address : ℕ → ℕ
  pub get_device_descriptor : ℕ → ℕ → Option DeviceDescriptor
  pub open_device : ℕ → ℕ → Option ℕ
  -- libusb_submit_transfer of a control transfer: call, transfer
  pub submit_control : ℕ → ControlTransfer → ℤ
  -- libusb_submit_transfer of an IN transfer: call, USB device
  pub submit_in : ℕ → ℕ → ℤ
  pub alloc_transfer : ℕ → Bool
  pub get_configuration : ℕ → ℕ → Option ℕ
  pub get_config_descriptor : ℕ → ℕ → ℕ → Option ConfigDescriptor
  pub kernel_driver_active : ℕ → ℕ → ℕ → ℤ
  -- Is the result of libusb_set_configuration, of libusb_claim_interface, 0?
  pub set_configuration : ℕ → ℕ → ℕ → Bool
  pub claim_interface : ℕ → ℕ → ℕ → Bool
  pub get_max_packet_size : ℕ → ℕ → ℤ
  pub get_device_speed : ℕ → UsbSpeed
  -- libusb_handle_events_timeout: its result, and the callbacks that it runs, in order
  pub handle_events : ℕ → ℤ
  pub events : ℕ → List UsbEvent
  -- libusb_get_next_timeout: its result, seconds and microseconds
  pub get_next_timeout : ℕ → ℤ
  pub timeout_sec : ℕ → ℕ
  pub timeout_usec : ℕ → ℕ
  -- libusb_get_pollfds: descriptors with their events
  pub get_pollfds : ℕ → Option (List (ℕ × Events))
  -- Is libusb_init's result 0? Is the hotplug callback registered, and which devices does it enumerate?
  pub init : ℕ → Bool
  pub hotplug_register : ℕ → Bool
  pub hotplug_enumerate : ℕ → List UsbEvent

pub record Env : Type 0 where
  -- libusb_submit_transfer of an OUT transfer: call, USB device, bytes
  pub submit_transfer : ℕ → ℕ → List ℕ → ℤ
  -- send and recv: call, descriptor, bytes or the most bytes wanted; `none` is a negative result
  pub send : ℕ → ℕ → List ℕ → ℤ
  pub recv : ℕ → ℕ → ℕ → Option (List ℕ)
  -- errno after a failed send is EAGAIN or EWOULDBLOCK
  pub would_block : ℕ → Bool
  -- accept: call, listening descriptor
  pub accept : ℕ → ℕ → ℤ
  -- clock_gettime: seconds and nanoseconds
  pub clock_sec : ℕ → ℕ
  pub clock_nsec : ℕ → ℕ
  -- Did realloc, did thread_new succeed?
  pub realloc : ℕ → ℕ → Bool
  pub thread_new : ℕ → Bool
  pub no_preflight : Bool
  -- stat finds something at the path
  pub stat_ok : ℕ → List ℕ → Bool
  pub mkdir : ℕ → List ℕ → MkdirResult
  pub dirname : List ℕ → List ℕ
  -- remove and plist_write_to_file: the errno, of a call that fails
  pub remove_error : ℕ → List ℕ → Option ℕ
  pub write_error : ℕ → List ℕ → Option ℕ
  pub rand : ℕ → ℕ
  pub have_libimobiledevice : Bool
  pub collection_add : List ℕ → ℕ → List ℕ
  pub collection_remove : List ℕ → ℕ → List ℕ
  pub plist : PlistLib
  pub libusb : LibUsb
  pub lockdown : LockdownLib
  -- the number in USBMUXD_DEFAULT_DEVICE_MODE as atoi reads it, where the variable is set
  pub device_mode : Option ℤ
  -- Does malloc succeed, in the one place that tests it?
  pub malloc : ℕ → Bool

-- The documented behaviour of the collections: an added pointer is in, a removed one is out, and
-- the others stay as they were.
pub record CollectionLaws (env : Env) : Type 0 where
  pub contains-add_self : (l : List ℕ) (p : ℕ) → contains p (env.collection_add l p) ≡ true
  pub contains-add_ne :
      (l : List ℕ) (p q : ℕ) → q ≢ p → contains q (env.collection_add l p) ≡ contains q l
  pub contains-remove_self : (l : List ℕ) (p : ℕ) → contains p (env.collection_remove l p) ≡ false
  pub contains-remove_ne :
      (l : List ℕ) (p q : ℕ) → q ≢ p → contains q (env.collection_remove l p) ≡ contains q l

-- recv returns no more bytes than it was asked for.
abbrev pub RecvBound : Env → Type 0
RecvBound env =
    (call fd n : ℕ) (bytes : List ℕ) → env.recv call fd n ≡ some bytes → length bytes ≤ n

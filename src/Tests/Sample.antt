-- ===== src/Tests/Sample.antt =====
-- An environment in which everything succeeds, and a small state.
use usbmuxd_win_mce.Base.{
  ℕ, ◌+◌, ◌≡◌, ◌≢◌, refl, true, false, none, some, List, [], ◌∷◌, ◌++◌, pos, arith, contains, ◌==◌,
  if◌then◌else◌, codes,
}
use usbmuxd_win_mce.State.{
  World, MuxDevice, MuxConnection, MuxClient, MuxDevState, MuxConnState, UsbDevice, UsbGlobals,
}
use usbmuxd_win_mce.State.Monad.{Outcome, done, fault}
use usbmuxd_win_mce.Env.{Env, PlistLib, plist_dict, CollectionLaws, mkdir_done, LibUsb, speed_high}
use usbmuxd_win_mce.Env.Lockdown.{LockdownLib, success}
use usbmuxd_win_mce.Device.Connect.{new_connection}
use usbmuxd_win_mce.Device.Registry.{new_device}
use usbmuxd_win_mce.Client.Process.{new_client}

abbrev pub without : List ℕ → ℕ → List ℕ
without [] p = []
without (x ∷ xs) p = if p == x then without xs p else x ∷ without xs p

contains-without_self : (l : List ℕ) (p : ℕ) → contains p (without l p) ≡ false
contains-without_self [] p = refl
contains-without_self (x ∷ xs) p = ground (arith, contains-without_self xs p)

contains-without_ne : (l : List ℕ) (p q : ℕ) → q ≢ p → contains q (without l p) ≡ contains q l
contains-without_ne [] p q h = refl
contains-without_ne (x ∷ xs) p q h = ground (arith, contains-without_ne xs p q h)

contains-snoc_self : (l : List ℕ) (p : ℕ) → contains p (l ++ (p ∷ [])) ≡ true
contains-snoc_self [] p = ground arith
contains-snoc_self (x ∷ xs) p = ground (arith, contains-snoc_self xs p)

contains-snoc_ne : (l : List ℕ) (p q : ℕ) → q ≢ p → contains q (l ++ (p ∷ [])) ≡ contains q l
contains-snoc_ne [] p q h = ground arith
contains-snoc_ne (x ∷ xs) p q h = ground (arith, contains-snoc_ne xs p q h)

-- Every node is a dictionary, and its XML one byte.
abbrev pub sample_plist : PlistLib
sample_plist = record {
  new_dict = 0;
  new_array = 0;
  new_string = λ s. 0;
  new_uint = λ n. n;
  new_bool = λ n. n;
  new_data = λ s. 0;
  dict_set_item = λ d k v. d + 1;
  array_append_item = λ a v. a + 1;
  dict_get_item = λ d k. none;
  dict_copy_item = λ t s k. t;
  get_node_type = λ n. plist_dict;
  get_string_val = λ n. none;
  get_uint_val = λ n. n;
  get_data_val = λ n. none;
  to_xml = λ n. some (n ∷ []);
  from_xml = λ b. none;
  from_memory = λ b. some 7;
  dict_remove_item = λ d k. d;
}

-- Every call succeeds, one device is on the bus, and no events arrive.
abbrev pub sample_libusb : LibUsb
sample_libusb = record {
  get_device_list = λ call. some (40 ∷ []);
  get_bus_number = λ dev. 1;
  get_device_address = λ dev. dev;
  get_device_descriptor = λ call dev.
      some
        (record { id_vendor = 1452; id_product = 4776; num_configurations = 4; serial_number = 3 });
  open_device = λ call dev. some dev;
  submit_control = λ call t. pos 0;
  submit_in = λ call dev. pos 0;
  alloc_transfer = λ call. true;
  get_configuration = λ call handle. some 0;
  get_config_descriptor = λ call dev value. some (record {
    configuration_value = value;
    interfaces =
        record { number = 1; class = 255; subclass = 254; protocol = 2; endpoints = 4 ∷ 133 ∷ [] }
        ∷ [];
  });
  kernel_driver_active = λ call handle interface. pos 0;
  set_configuration = λ call handle value. true;
  claim_interface = λ call handle interface. true;
  get_max_packet_size = λ dev endpoint. pos 512;
  get_device_speed = λ dev. speed_high;
  handle_events = λ call. pos 0;
  events = λ call. [];
  get_next_timeout = λ call. pos 0;
  timeout_sec = λ call. 0;
  timeout_usec = λ call. 0;
  get_pollfds = λ call. some ((7, record { pollin = true; pollout = false }) ∷ []);
  init = λ call. true;
  hotplug_register = λ call. true;
  hotplug_enumerate = λ call. [];
}

-- Lockdownd answers each call, for an iPhone of a recent version.
abbrev pub sample_lockdown : LockdownLib
sample_lockdown = record {
  client_new = λ call. success;
  query_type = λ call. some (codes "com.apple.mobile.lockdown");
  start_session = λ call host_id. success;
  get_value = λ call key. none;
  pair = λ call. success;
  validate_pair = λ call. success;
  start_service = λ call. success;
  np_client_new = λ call. true;
}

abbrev pub sample_env : Env
sample_env = record {
  submit_transfer = λ call dev b. pos 0;
  send = λ call fd b. pos 0;
  recv = λ call fd n. none;
  would_block = λ call. false;
  accept = λ call fd. pos 5;
  clock_sec = λ call. call;
  clock_nsec = λ call. 0;
  realloc = λ call n. true;
  thread_new = λ call. true;
  no_preflight = false;
  have_libimobiledevice = true;
  stat_ok = λ call p. true;
  mkdir = λ call p. mkdir_done;
  dirname = λ p. [];
  remove_error = λ call p. none;
  write_error = λ call p. none;
  rand = λ call. call;
  collection_add = λ l p. l ++ (p ∷ []);
  collection_remove = without;
  plist = sample_plist;
  libusb = sample_libusb;
  lockdown = sample_lockdown;
  device_mode = none;
  malloc = λ call. true;
}

pub sample_laws : CollectionLaws sample_env
sample_laws = record {
  contains-add_self = contains-snoc_self;
  contains-add_ne = contains-snoc_ne;
  contains-remove_self = contains-without_self;
  contains-remove_ne = contains-without_ne;
}

-- An active device of version 1 at address 1, with a connected connection at 2 for the client at 3,
-- and a device at 4 that is being set up.
abbrev pub sample_device : MuxDevice
sample_device = record (new_device 9 1) {
  state = MuxDevState.active;
  visible = true;
  connections = some (2 ∷ []);
  next_sport = 1;
  version = 1;
}

abbrev pub sample_conn : MuxConnection
sample_conn = record (new_connection 1 3 1 62078) {
  state = MuxConnState.connected;
  ib_buf = 10 ∷ 11 ∷ [];
  ib_capacity = 4;
  rx_win = 100;
}

abbrev pub sample_client : MuxClient
sample_client = new_client 5 0

abbrev pub sample_usb : UsbDevice
sample_usb = record {
  handle = 1;
  bus = 0;
  address = 0;
  serial = 65 ∷ [];
  alive = true;
  interface = 1;
  ep_in = 133;
  ep_out = 4;
  rx_xfers = [];
  tx_xfers = [];
  max_packet_size = 512;
  speed = 480;
  devdesc = record { id_vendor = 1452; id_product = 0; num_configurations = 4; serial_number = 3 };
}

abbrev pub sample_bus : UsbGlobals
sample_bus = record {
  device_list = 9 ∷ [];
  poll_sec = 0;
  poll_usec = 0;
  devlist_failures = 0;
  device_polling = true;
  device_hotplug = true;
  should_exit = false;
  should_discover = false;
}

abbrev pub sample_world : World
sample_world = record {
  device_list = 1 ∷ 4 ∷ [];
  client_list = 3 ∷ [];
  next_device_id = 3;
  client_number = 1;
  devices =
      λ p. if p == 1 then some sample_device else if p == 4 then some (new_device 8 2) else none;
  conns = λ p. if p == 2 then some sample_conn else none;
  clients = λ p. if p == 3 then some sample_client else none;
  usb = λ p. if p == 9 then some sample_usb else none;
  next_ptr = 6;
  calls = 0;
  transfers = [];
  socket_out = [];
  workers = [];
  preflight = record { callbacks = λ p. none; lockdowns = 0; proxies = 0; requests = [] };
  config_dir = some (b'c' ∷ []);
  files = λ p. none;
  made = [];
  bus = sample_bus;
  contexts = λ p. none;
  controls = [];
}

-- The state in which a run ends.
abbrev pub after : {A : Type 0} → Outcome A → World
after (done a w) = w
after fault = sample_world

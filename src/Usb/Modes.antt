-- ===== src/Usb/Modes.antt =====
-- How a device that was found is set up: `submit_vendor_specific`, `find_device`,
-- `device_complete_initialization`, `switch_mode_cb`, `get_mode_cb` and `usb_device_add` of src/usb.c.
pub mod Keeps
use usbmuxd_win_mce.Base.{
  ℕ, zero, suc, ◌+◌, Bool, true, false, not, ◌&&◌, ◌||◌, Option, none, some, List, [], ◌∷◌, ℤ, pos,
  neg, negsuc, is_zero, is_neg, byte_at, ltb, leb, ◌==◌, if◌then◌else◌,
}
use usbmuxd_win_mce.State.{
  UsbDevice, DeviceDescriptor, ModeContext, ControlTransfer, ControlCallback,
}
use usbmuxd_win_mce.State.Monad.{
  M, pure, ◌>>=◌, ◌>>◌, skip, maybe, get, modify, modify_bus, alloc, load_usb, store_usb, tick,
  load_context, store_context, free_context,
}
use usbmuxd_win_mce.Env.{Env, TransferStatus, UsbSpeed}
use usbmuxd_win_mce.Usb.Configuration.{set_valid_configuration, guess_mode}
use usbmuxd_win_mce.Usb.Transfers.{is_completed, mark}

abbrev pub control_setup_size : ℕ
control_setup_size = 8

-- Is the device one that usbmuxd serves?
unfoldable pub is_supported : DeviceDescriptor → Bool
is_supported d =
    (d.id_vendor == 0x5ac)
    && ((d.id_product == 0x8600)
        || (leb 0x1901 d.id_product && leb d.id_product 0x1905)
        || (leb 0x1290 d.id_product && leb d.id_product 0x12af))

unfoldable pub speed_of : UsbSpeed → ℕ
speed_of UsbSpeed.speed_low = 1500000
speed_of UsbSpeed.speed_full = 12000000
speed_of UsbSpeed.speed_super = 5000000000
speed_of UsbSpeed.speed_super_plus = 10000000000
speed_of UsbSpeed.speed_high = 480000000
speed_of UsbSpeed.speed_unknown = 480000000

-- 64 where libusb has no answer.
abbrev pub packet_size_of : ℤ → ℕ
packet_size_of (pos (suc n)) = suc n
packet_size_of _ = 64

-- The mode to switch to, if any: it is asked for, the present one is known, and they differ.
unfoldable pub switch_to : ℤ → ℕ → Option ℕ
switch_to (negsuc n) guessed = none
switch_to (pos n) guessed =
    if leb 1 n && leb n 5 && ltb 0 guessed && not (guessed == n) then some n else none

-- The mode that the environment asks for, or the first.
abbrev pub desired_mode : Option ℤ → ℤ
desired_mode none = pos 1
desired_mode (some n) = n

-- The vendor request that a context describes.
abbrev pub vendor_transfer : ℕ → ℕ → ModeContext → ControlCallback → ControlTransfer
vendor_transfer handle p c callback = record {
  handle = handle;
  request_type = 0xc0;
  request = c.request;
  value = c.value;
  index = c.index;
  length = c.length;
  callback = callback;
  user_data = p;
  timeout = c.timeout;
}

-- LIBUSB_REQUEST_GET_DESCRIPTOR of a string.
abbrev pub string_transfer : ℕ → ℕ → ℕ → ControlCallback → ℕ → ControlTransfer
string_transfer handle number langid callback usbdev = record {
  handle = handle;
  request_type = 0x80;
  request = 6;
  value = 0x300 + number;
  index = langid;
  length = 1024 + control_setup_size;
  callback = callback;
  user_data = usbdev;
  timeout = 1000;
}

-- The first device at an address of a bus.
unfoldable pub find_in : ℕ → ℕ → List ℕ → M (Option ℕ)
find_in bus address [] = pure none
find_in bus address (p ∷ ps) = do
  u ← load_usb p
  if (u.bus == bus) && (u.address == address) then pure (some p) else find_in bus address ps

unfoldable pub find_device : ℕ → ℕ → M (Option ℕ)
unfolding find_in
find_device bus address = do l ← get (λ w. w.bus.device_list); find_in bus address l

module _ (env : Env) where
  unfoldable pub submit_control : ControlTransfer → M ℤ
  submit_control t = do
    call ← tick
    let res = env.libusb.submit_control call t
    if is_neg res
        then pure res
        else (do modify (λ w. record w { controls = t ∷ w.controls }); pure res)

  unfoldable pub submit_vendor_specific : ℕ → ℕ → ControlCallback → M ℤ
  unfolding submit_control
  submit_vendor_specific handle context callback = do
    c ← load_context context
    submit_control (vendor_transfer handle context c callback)

  -- The device once its interface is claimed.
  unfoldable pub initialized : ℕ → ℕ → UsbDevice → UsbDevice
  unfolding speed_of
  initialized dev handle u = record u {
    serial = [];
    handle = handle;
    alive = true;
    max_packet_size = packet_size_of (env.libusb.get_max_packet_size dev u.ep_out);
    speed = speed_of (env.libusb.get_device_speed dev);
  }

  -- The request for the languages of the device, the last step here.
  unfoldable pub request_langid : ℕ → ℕ → ℕ → M (Unit {0})
  unfolding initialized submit_control
  request_langid dev usbdev handle = do
    u ← load_usb usbdev
    store_usb usbdev (initialized dev handle u)
    res ← submit_control (string_transfer handle 0 0 ControlCallback.get_langid_callback usbdev)
    if is_neg res then mark usbdev false else skip

  unfoldable pub complete_found : ℕ → ℕ → ℕ → M (Unit {0})
  unfolding request_langid
  complete_found dev usbdev handle = do
    valid ← set_valid_configuration env dev usbdev handle
    if not valid then mark usbdev false else (do
      u ← load_usb usbdev
      call ← tick
      if not (env.libusb.claim_interface call handle u.interface) then mark usbdev false else (do
        call' ← tick
        if not (env.libusb.alloc_transfer call') then mark usbdev false else (do
          call'' ← tick
          if not (env.malloc call'') then mark usbdev false else request_langid dev usbdev handle)))

  unfoldable pub device_complete_initialization : ℕ → ℕ → M (Unit {0})
  unfolding complete_found find_device
  device_complete_initialization context handle = do
    c ← load_context context
    found ← find_device c.bus c.address
    maybe found skip (λ usbdev. complete_found c.dev usbdev handle)

  unfoldable pub switch_mode_cb : ℕ → ℕ → TransferStatus → List ℕ → M (Unit {0})
  unfolding device_complete_initialization
  switch_mode_cb context handle status bytes = do
    c ← load_context context
    _ ← find_device c.bus c.address
    if not (is_completed status) || not (byte_at bytes 0 == 0)
        then device_complete_initialization context handle
        else skip
    free_context context

  -- The request to switch to another mode; a failure is left to the cleanup of dead devices.
  unfoldable pub request_mode : ℕ → ℕ → ℕ → ℕ → M (Unit {0})
  unfolding submit_vendor_specific
  request_mode context handle usbdev mode = do
    c ← load_context context
    store_context context (record c { request = 0x52; value = 0; index = mode; length = 1 })
    res ← submit_vendor_specific handle context ControlCallback.switch_mode_cb
    if is_zero res then skip else (do mark usbdev false; free_context context)

  unfoldable pub get_mode_cb : ℕ → ℕ → TransferStatus → List ℕ → M (Unit {0})
  unfolding device_complete_initialization request_mode switch_to
  get_mode_cb context handle status bytes = do
    c ← load_context context
    found ← find_device c.bus c.address
    maybe found (free_context context) λ usbdev.
        if not (is_completed status)
        then (do device_complete_initialization context handle; free_context context)
        else (do
          u ← load_usb usbdev
          guessed ← guess_mode env c.dev u
          maybe (switch_to (desired_mode env.device_mode) guessed)
              (do device_complete_initialization context handle; free_context context)
              (request_mode context handle usbdev))

  -- What usb_device_add fills in.
  abbrev pub new_usb_device : ℕ → ℕ → ℕ → DeviceDescriptor → UsbDevice
  new_usb_device handle bus address devdesc = record {
    handle = handle;
    bus = bus;
    address = address;
    serial = [];
    alive = true;
    interface = 0;
    ep_in = 0;
    ep_out = 0;
    rx_xfers = [];
    tx_xfers = [];
    max_packet_size = 0;
    speed = 0;
    devdesc = devdesc;
  }

  abbrev pub new_context : ℕ → ℕ → ℕ → ModeContext
  new_context dev bus address = record {
    dev = dev;
    bus = bus;
    address = address;
    request = 0x45;
    value = 0;
    index = 0;
    length = 4;
    timeout = 1000;
  }

  -- A device that was opened: it is listed, and asked for its mode.
  unfoldable pub add_opened : ℕ → ℕ → ℕ → DeviceDescriptor → ℕ → M ℤ
  unfolding submit_vendor_specific
  add_opened dev bus address devdesc handle = do
    usbdev ← alloc
    store_usb usbdev (new_usb_device handle bus address devdesc)
    modify_bus (λ b. record b { device_list = env.collection_add b.device_list usbdev })
    context ← alloc
    store_context context (new_context dev bus address)
    res ← submit_vendor_specific handle context ControlCallback.get_mode_cb
    if is_zero res then pure (pos 0) else (do mark usbdev false; pure (neg 1))

  -- A device that is not known: it is opened if usbmuxd serves it.
  unfoldable pub add_new : ℕ → ℕ → ℕ → M ℤ
  unfolding is_supported add_opened
  add_new dev bus address = do
    call ← tick
    maybe (env.libusb.get_device_descriptor call dev) (pure (neg 1)) λ devdesc.
        if not (is_supported devdesc) then pure (neg 1) else (do
          call' ← tick
          maybe (env.libusb.open_device call' dev) (pure (neg 1))
              λ handle. add_opened dev bus address devdesc handle)

  unfoldable pub usb_device_add : ℕ → M ℤ
  unfolding find_device add_new
  usb_device_add dev = do
    let bus = env.libusb.get_bus_number dev
    let address = env.libusb.get_device_address dev
    found ← find_device bus address
    maybe found (add_new dev bus address) (λ usbdev. do mark usbdev true; pure (pos 0))

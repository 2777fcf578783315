-- ===== src/Device/Info.antt =====
-- What the rest of the daemon asks of the device list: `device_get_list`, `device_get_count`,
-- `device_set_visible` and `device_set_preflight_cb_data` of src/device.c.
pub mod Listed
use usbmuxd_win_mce.Base.{
  ℕ, suc, ◌+◌, ◌*◌, Bool, true, false, ◌&&◌, ◌||◌, Option, none, some, List, [], ◌∷◌, ◌==◌,
  if◌then◌else◌,
}
use usbmuxd_win_mce.State.{World, MuxDevice, MuxDevState, UsbDevice, DeviceInfo}
use usbmuxd_win_mce.State.Monad.{
  M, pure, ◌>>=◌, ◌>>◌, skip, get, load_device, store_device, load_usb,
}
use usbmuxd_win_mce.Device.Lookup.{get_mux_device_for_id}

abbrev pub is_active : MuxDevState → Bool
is_active MuxDevState.active = true
is_active _ = false

-- The getters of src/usb.c.
unfoldable pub usb_get_location : UsbDevice → ℕ
usb_get_location u = u.bus * 65536 + u.address

abbrev pub usb_get_serial : UsbDevice → List ℕ
usb_get_serial u = u.serial

abbrev pub usb_get_pid : UsbDevice → ℕ
usb_get_pid u = u.devdesc.id_product

abbrev pub usb_get_speed : UsbDevice → ℕ
usb_get_speed u = u.speed

abbrev pub info_of : MuxDevice → UsbDevice → DeviceInfo
info_of d u = record {
  id = d.id;
  serial = usb_get_serial u;
  location = usb_get_location u;
  pid = usb_get_pid u;
  speed = usb_get_speed u;
}

abbrev pub is_listed : Bool → MuxDevice → Bool
is_listed include_hidden d = is_active d.state && (include_hidden || d.visible)

unfoldable pub count_from : Bool → List ℕ → M ℕ
count_from include_hidden [] = pure 0
count_from include_hidden (p ∷ ps) = do
  d ← load_device p
  n ← count_from include_hidden ps
  pure (if is_listed include_hidden d then suc n else n)

unfoldable pub device_get_count : Bool → M ℕ
unfolding count_from
device_get_count include_hidden = do l ← get (λ w. w.device_list); count_from include_hidden l

unfoldable pub list_from : Bool → List ℕ → M (List DeviceInfo)
list_from include_hidden [] = pure []
list_from include_hidden (p ∷ ps) = do
  d ← load_device p
  if is_listed include_hidden d
      then (do u ← load_usb d.usbdev; rest ← list_from include_hidden ps; pure (info_of d u ∷ rest))
      else list_from include_hidden ps

unfoldable pub device_get_list : Bool → M (List DeviceInfo)
unfolding list_from
device_get_list include_hidden = do l ← get (λ w. w.device_list); list_from include_hidden l

unfoldable pub device_set_visible : ℕ → M (Unit {0})
device_set_visible device_id = do
  found ← get_mux_device_for_id device_id
  elim found [
    | none ↦ skip
    | some p ↦ do d ← load_device p; store_device p (record d { visible = true })
  ]

unfoldable pub device_set_preflight_cb_data : ℕ → Option ℕ → M (Unit {0})
device_set_preflight_cb_data device_id cb = do
  found ← get_mux_device_for_id device_id
  elim found [
    | none ↦ skip
    | some p ↦ do d ← load_device p; store_device p (record d { preflight_cb_data = cb })
  ]

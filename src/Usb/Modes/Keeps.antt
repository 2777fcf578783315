-- ===== src/Usb/Modes/Keeps.antt =====
-- Setting a device up keeps the buffers of every client (src/usb.c).
use usbmuxd_win_mce.Base.{ℕ, zero, suc, Bool, List, [], ◌∷◌, arith}
use usbmuxd_win_mce.State.{ControlTransfer, ControlCallback, DeviceDescriptor, UsbDevice}
use usbmuxd_win_mce.Env.{Env, TransferStatus, InterfaceDescriptor, ConfigDescriptor}
use usbmuxd_win_mce.Client.Socket.Sound.{untouched-KeepsSound}
use usbmuxd_win_mce.Client.Keeps.{Keeps, keeps_rules}
use usbmuxd_win_mce.Usb.Configuration.{
  guess_mode, detach_each, configure, configure_from, set_valid_configuration,
}
use usbmuxd_win_mce.Usb.Modes.{
  find_in, find_device, submit_control, submit_vendor_specific, request_langid, complete_found,
  device_complete_initialization, switch_mode_cb, request_mode, get_mode_cb, add_opened, add_new,
  usb_device_add,
}

pub find_in-Keeps : (bus address : ℕ) (l : List ℕ) → Keeps (find_in bus address l)
unfolding find_in
find_in-Keeps bus address [] = search keeps_rules
find_in-Keeps bus address (p ∷ ps) = let rest = find_in-Keeps bus address ps in search keeps_rules

pub find_device-Keeps : (bus address : ℕ) → Keeps (find_device bus address)
unfolding find_device
find_device-Keeps bus address = search (keeps_rules, find_in-Keeps)

module _ (env : Env) where
  pub submit_control-Keeps : (t : ControlTransfer) → Keeps (submit_control env t)
  unfolding submit_control
  submit_control-Keeps t = record {
    at = untouched-KeepsSound (submit_control env t) (λ r w w' e. ground arith);
  }

  submit_vendor_specific-Keeps :
      (handle context : ℕ) (callback : ControlCallback)
      → Keeps (submit_vendor_specific env handle context callback)
  unfolding submit_vendor_specific
  submit_vendor_specific-Keeps handle context callback = search (keeps_rules, submit_control-Keeps)

  guess_mode-Keeps : (dev : ℕ) (u : UsbDevice) → Keeps (guess_mode env dev u)
  unfolding guess_mode
  guess_mode-Keeps dev u = search keeps_rules depth 12

  detach_each-Keeps : (handle : ℕ) (l : List InterfaceDescriptor) → Keeps (detach_each env handle l)
  unfolding detach_each
  detach_each-Keeps handle [] = search keeps_rules
  detach_each-Keeps handle (i ∷ is) =
      let rest = detach_each-Keeps handle is in search keeps_rules depth 8

  configure-Keeps :
      (handle current j : ℕ) (config : ConfigDescriptor)
      → Keeps (configure env handle current j config)
  unfolding configure
  configure-Keeps handle current j config = search (keeps_rules, detach_each-Keeps) depth 8

  configure_from-Keeps :
      (dev usbdev handle current : ℕ) (found : Bool) (n : ℕ)
      → Keeps (configure_from env dev usbdev handle current found n)
  unfolding configure_from
  configure_from-Keeps dev usbdev handle current found zero = search keeps_rules
  configure_from-Keeps dev usbdev handle current found (suc k) =
      let rest = λ (b : Bool). configure_from-Keeps dev usbdev handle current b k in
      search (keeps_rules, configure-Keeps) depth 12

  set_valid_configuration-Keeps :
      (dev usbdev handle : ℕ) → Keeps (set_valid_configuration env dev usbdev handle)
  unfolding set_valid_configuration
  set_valid_configuration-Keeps dev usbdev handle =
      search (keeps_rules, configure_from-Keeps) depth 8

  request_langid-Keeps : (dev usbdev handle : ℕ) → Keeps (request_langid env dev usbdev handle)
  unfolding request_langid
  request_langid-Keeps dev usbdev handle = search (keeps_rules, submit_control-Keeps) depth 12

  complete_found-Keeps : (dev usbdev handle : ℕ) → Keeps (complete_found env dev usbdev handle)
  unfolding complete_found
  complete_found-Keeps dev usbdev handle =
      search (keeps_rules, set_valid_configuration-Keeps, request_langid-Keeps) depth 20

  complete-Keeps : (context handle : ℕ) → Keeps (device_complete_initialization env context handle)
  unfolding device_complete_initialization
  complete-Keeps context handle =
      search (keeps_rules, find_device-Keeps, complete_found-Keeps) depth 8

  pub switch_mode_cb-Keeps :
      (context handle : ℕ) (status : TransferStatus) (bytes : List ℕ)
      → Keeps (switch_mode_cb env context handle status bytes)
  unfolding switch_mode_cb
  switch_mode_cb-Keeps context handle status bytes =
      search (keeps_rules, find_device-Keeps, complete-Keeps) depth 8

  request_mode-Keeps :
      (context handle usbdev mode : ℕ) → Keeps (request_mode env context handle usbdev mode)
  unfolding request_mode
  request_mode-Keeps context handle usbdev mode =
      search (keeps_rules, submit_vendor_specific-Keeps) depth 12

  pub get_mode_cb-Keeps :
      (context handle : ℕ) (status : TransferStatus) (bytes : List ℕ)
      → Keeps (get_mode_cb env context handle status bytes)
  unfolding get_mode_cb
  get_mode_cb-Keeps context handle status bytes =
      search (keeps_rules, find_device-Keeps, complete-Keeps, guess_mode-Keeps, request_mode-Keeps)
        depth 16

  add_opened-Keeps :
      (dev bus address : ℕ) (devdesc : DeviceDescriptor) (handle : ℕ)
      → Keeps (add_opened env dev bus address devdesc handle)
  unfolding add_opened
  add_opened-Keeps dev bus address devdesc handle =
      search (keeps_rules, submit_vendor_specific-Keeps) depth 16

  add_new-Keeps : (dev bus address : ℕ) → Keeps (add_new env dev bus address)
  unfolding add_new
  add_new-Keeps dev bus address = search (keeps_rules, add_opened-Keeps) depth 12

  pub usb_device_add-Keeps : (dev : ℕ) → Keeps (usb_device_add env dev)
  unfolding usb_device_add
  usb_device_add-Keeps dev = search (keeps_rules, find_device-Keeps, add_new-Keeps) depth 8

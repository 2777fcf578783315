-- ===== src/Usb/Transfers.antt =====
-- The bulk transfers of a device and its end: `tx_callback`, `rx_callback`, `start_rx_loop`,
-- `usb_disconnect` and `reap_dead_devices` of src/usb.c. libusb handles events while a device is
-- disconnected, and one of them may disconnect a device, so that `usb_disconnect_with` takes the
-- handling of events as an argument.
pub mod Callbacks
use usbmuxd_win_mce.Base.{
  ℕ, zero, suc, Bool, true, false, not, ◌&&◌, List, [], ◌∷◌, ℤ, pos, negsuc, is_zero, is_neg,
  contains, length, if◌then◌else◌,
}
use usbmuxd_win_mce.State.{UsbDevice}
use usbmuxd_win_mce.State.Monad.{
  M, pure, ◌>>=◌, ◌>>◌, skip, faults, get, modify_bus, load_usb, store_usb, free_usb, tick,
}
use usbmuxd_win_mce.Env.{Env, TransferStatus}
use usbmuxd_win_mce.Device.Input.{device_data_input}
use usbmuxd_win_mce.Device.Registry.{device_remove}

abbrev pub num_rx_loops : ℕ
num_rx_loops = 3

abbrev pub is_completed : TransferStatus → Bool
is_completed TransferStatus.completed = true
is_completed _ = false

abbrev pub is_empty : List ℕ → Bool
is_empty [] = true
is_empty (x ∷ xs) = false

-- Has every transfer of the device ended?
abbrev pub is_quiet : UsbDevice → Bool
is_quiet u = is_empty u.rx_xfers && is_empty u.tx_xfers

abbrev pub with_alive : Bool → UsbDevice → UsbDevice
with_alive alive u = record u { alive = alive }

abbrev pub mark : ℕ → Bool → M (Unit {0})
mark usbdev alive = do u ← load_usb usbdev; store_usb usbdev (with_alive alive u)

module _ (env : Env) where
  -- The device after an OUT transfer has ended.
  abbrev pub sent : UsbDevice → ℕ → TransferStatus → UsbDevice
  sent u xfer status = record u {
    alive = u.alive && is_completed status;
    tx_xfers = env.collection_remove u.tx_xfers xfer;
  }

  unfoldable pub tx_callback : ℕ → ℕ → TransferStatus → M (Unit {0})
  tx_callback usbdev xfer status = do u ← load_usb usbdev; store_usb usbdev (sent u xfer status)

  -- The device after an IN transfer has ended for good.
  abbrev pub stopped : UsbDevice → ℕ → UsbDevice
  stopped u xfer = record u { rx_xfers = env.collection_remove u.rx_xfers xfer; alive = false }

  unfoldable pub start_rx_loop : ℕ → M ℤ
  start_rx_loop usbdev = do
    call ← tick
    let res = env.libusb.submit_in call usbdev
    if is_zero res
        then (do
          u ← load_usb usbdev
          store_usb usbdev (record u { rx_xfers = env.collection_add u.rx_xfers call })
          pure res)
        else pure res

  -- The loops that could not be started, of `n`.
  unfoldable pub start_rx_loops : ℕ → ℕ → M ℕ
  unfolding start_rx_loop
  start_rx_loops usbdev zero = pure zero
  start_rx_loops usbdev (suc n) = do
    res ← start_rx_loop usbdev
    if is_neg res then pure (suc n) else start_rx_loops usbdev n

  module _ (fuel : ℕ) where
    -- A transfer that libusb completes is submitted again; what libusb answers is not looked at.
    unfoldable pub rx_callback : ℕ → ℕ → TransferStatus → List ℕ → M (Unit {0})
    rx_callback usbdev xfer status buffer =
        if is_completed status
        then (do device_data_input env fuel usbdev buffer (length buffer); _ ← tick; skip)
        else (do u ← load_usb usbdev; store_usb usbdev (stopped u xfer))

    module _ (handle_events : M ℤ) where
      -- The busy-wait until every transfer has ended. A wait that takes more rounds has no outcome.
      unfoldable pub wait_quiet : ℕ → ℕ → M (Unit {0})
      wait_quiet zero usbdev = faults
      wait_quiet (suc n) usbdev = do
        u ← load_usb usbdev
        if is_quiet u
            then skip
            else (do res ← handle_events; if is_neg res then skip else wait_quiet n usbdev)

      unfoldable pub usb_disconnect_with : ℕ → ℕ → M (Unit {0})
      unfolding wait_quiet
      usb_disconnect_with rounds usbdev = do
        _ ← load_usb usbdev
        wait_quiet rounds usbdev
        modify_bus (λ b. record b { device_list = env.collection_remove b.device_list usbdev })
        free_usb usbdev

    -- FOREACH over the devices; one that is gone by its turn is passed over.
    unfoldable pub reap_each : (ℕ → M (Unit {0})) → List ℕ → M (Unit {0})
    reap_each disconnect [] = skip
    reap_each disconnect (p ∷ ps) = do
      l ← get (λ w. w.bus.device_list)
      if contains p l
          then (do
            u ← load_usb p
            if u.alive then skip else (do device_remove env fuel p; disconnect p))
          else skip
      reap_each disconnect ps

    unfoldable pub reap_dead_devices : (ℕ → M (Unit {0})) → M (Unit {0})
    unfolding reap_each
    reap_dead_devices disconnect = do l ← get (λ w. w.bus.device_list); reap_each disconnect l

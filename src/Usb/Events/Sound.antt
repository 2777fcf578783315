-- ===== src/Usb/Events/Sound.antt =====
-- Whatever libusb calls back keeps the buffers of every client (src/usb.c).
use usbmuxd_win_mce.Base.{ℕ, zero, suc, List, [], ◌∷◌, ℤ}
use usbmuxd_win_mce.State.Monad.{M}
use usbmuxd_win_mce.Env.{
  Env, TransferStatus, UsbEvent, tx_done, rx_done, langid_done, serial_done, mode_done, switch_done,
  arrived, left,
}
use usbmuxd_win_mce.Client.Keeps.{Keeps, keeps_rules}
use usbmuxd_win_mce.Device.Input.{device_data_input}
use usbmuxd_win_mce.Device.Input.Sound.{device_data_input-AllSound}
use usbmuxd_win_mce.Device.Registry.Sound.{device_add-Keeps, device_remove-Keeps}
use usbmuxd_win_mce.Usb.Transfers.{
  tx_callback, rx_callback, start_rx_loop, start_rx_loops, wait_quiet, usb_disconnect_with,
  reap_each, reap_dead_devices,
}
use usbmuxd_win_mce.Usb.Modes.Keeps.{
  find_device-Keeps, submit_control-Keeps, get_mode_cb-Keeps, switch_mode_cb-Keeps,
  usb_device_add-Keeps,
}
use usbmuxd_win_mce.Usb.Events.{
  get_langid_callback, get_serial_callback, begin_serving, device_left, device_arrived, on_event,
  on_events, handle_events, usb_disconnect,
}

module _ (env : Env) where
  tx_callback-Keeps :
      (usbdev xfer : ℕ) (status : TransferStatus) → Keeps (tx_callback env usbdev xfer status)
  unfolding tx_callback
  tx_callback-Keeps usbdev xfer status = search keeps_rules

  start_rx_loop-Keeps : (usbdev : ℕ) → Keeps (start_rx_loop env usbdev)
  unfolding start_rx_loop
  start_rx_loop-Keeps usbdev = search keeps_rules depth 8

  start_rx_loops-Keeps : (usbdev n : ℕ) → Keeps (start_rx_loops env usbdev n)
  unfolding start_rx_loops
  start_rx_loops-Keeps usbdev zero = search keeps_rules
  start_rx_loops-Keeps usbdev (suc n) =
      let rest = start_rx_loops-Keeps usbdev n in search (keeps_rules, start_rx_loop-Keeps)

  get_langid_callback-Keeps :
      (usbdev : ℕ) (status : TransferStatus) (bytes : List ℕ)
      → Keeps (get_langid_callback env usbdev status bytes)
  unfolding get_langid_callback
  get_langid_callback-Keeps usbdev status bytes = search (keeps_rules, submit_control-Keeps) depth 8

  device_arrived-Keeps :
      (fuel : ℕ) (disconnect : ℕ → M (Unit {0})) (dev : ℕ)
      → Keeps (device_arrived env fuel disconnect dev)
  unfolding device_arrived
  device_arrived-Keeps fuel disconnect dev = search (keeps_rules, usb_device_add-Keeps) depth 8

  module _ (fuel : ℕ) where
    input-Keeps :
        (usbdev : ℕ) (buffer : List ℕ) (len : ℕ)
        → Keeps (device_data_input env fuel usbdev buffer len)
    input-Keeps usbdev buffer len = record {
      at = λ r w w' v e. device_data_input-AllSound env fuel usbdev buffer len w w' v e;
    }

    rx_callback-Keeps :
        (usbdev xfer : ℕ) (status : TransferStatus) (buffer : List ℕ)
        → Keeps (rx_callback env fuel usbdev xfer status buffer)
    unfolding rx_callback
    rx_callback-Keeps usbdev xfer status buffer = search (keeps_rules, input-Keeps) depth 8

    wait_quiet-Keeps :
        (handle : M ℤ) → Keeps handle → (n usbdev : ℕ) → Keeps (wait_quiet env fuel handle n usbdev)
    unfolding wait_quiet
    wait_quiet-Keeps handle h zero usbdev = search keeps_rules
    wait_quiet-Keeps handle h (suc n) usbdev =
        let rest = wait_quiet-Keeps handle h n usbdev in search keeps_rules depth 12

    disconnect_with-Keeps :
        (handle : M ℤ)
        → Keeps handle
        → (n usbdev : ℕ) → Keeps (usb_disconnect_with env fuel handle n usbdev)
    unfolding usb_disconnect_with
    disconnect_with-Keeps handle h n usbdev = search (keeps_rules, wait_quiet-Keeps) depth 8

    reap_each-Keeps :
        (disconnect : ℕ → M (Unit {0}))
        → ((p : ℕ) → Keeps (disconnect p))
        → (l : List ℕ) → Keeps (reap_each env fuel disconnect l)
    unfolding reap_each
    reap_each-Keeps disconnect h [] = search keeps_rules
    reap_each-Keeps disconnect h (p ∷ ps) =
        let rest = reap_each-Keeps disconnect h ps in
        search (keeps_rules, device_remove-Keeps, h) depth 12

    pub reap_dead_devices-Keeps :
        (disconnect : ℕ → M (Unit {0}))
        → ((p : ℕ) → Keeps (disconnect p))
        → Keeps (reap_dead_devices env fuel disconnect)
    unfolding reap_dead_devices
    reap_dead_devices-Keeps disconnect h = search (keeps_rules, reap_each-Keeps, h)

    module _ (disconnect : ℕ → M (Unit {0})) (h : (p : ℕ) → Keeps (disconnect p)) where
      begin_serving-Keeps : (usbdev : ℕ) → Keeps (begin_serving env fuel disconnect usbdev)
      unfolding begin_serving
      begin_serving-Keeps usbdev =
          search (keeps_rules, device_add-Keeps, device_remove-Keeps, start_rx_loops-Keeps, h) depth
            12

      get_serial_callback-Keeps :
          (usbdev : ℕ) (status : TransferStatus) (bytes : List ℕ)
          → Keeps (get_serial_callback env fuel disconnect usbdev status bytes)
      unfolding get_serial_callback
      get_serial_callback-Keeps usbdev status bytes =
          search (keeps_rules, begin_serving-Keeps) depth 8

      device_left-Keeps : (dev : ℕ) → Keeps (device_left env fuel disconnect dev)
      unfolding device_left
      device_left-Keeps dev = search (keeps_rules, find_device-Keeps, device_remove-Keeps) depth 8

      on_event-Keeps : (e : UsbEvent) → Keeps (on_event env fuel disconnect e)
      unfolding on_event
      on_event-Keeps (tx_done usbdev xfer status) = tx_callback-Keeps usbdev xfer status
      on_event-Keeps (rx_done usbdev xfer status buffer) =
          rx_callback-Keeps usbdev xfer status buffer
      on_event-Keeps (langid_done usbdev status bytes) =
          get_langid_callback-Keeps usbdev status bytes
      on_event-Keeps (serial_done usbdev status bytes) =
          get_serial_callback-Keeps usbdev status bytes
      on_event-Keeps (mode_done context handle status bytes) =
          get_mode_cb-Keeps env context handle status bytes
      on_event-Keeps (switch_done context handle status bytes) =
          switch_mode_cb-Keeps env context handle status bytes
      on_event-Keeps (arrived dev) = device_arrived-Keeps fuel disconnect dev
      on_event-Keeps (left dev) = device_left-Keeps dev

      pub on_events-Keeps : (l : List UsbEvent) → Keeps (on_events env fuel disconnect l)
      unfolding on_events
      on_events-Keeps [] = search keeps_rules
      on_events-Keeps (e ∷ es) =
          let rest = on_events-Keeps es in search (keeps_rules, on_event-Keeps)

    pub handle_events-Keeps : (n : ℕ) → Keeps (handle_events env fuel n)
    unfolding handle_events
    handle_events-Keeps zero = search keeps_rules
    handle_events-Keeps (suc n) =
        let nested = disconnect_with-Keeps (handle_events env fuel n) (handle_events-Keeps n) n in
        search (keeps_rules, on_events-Keeps, nested) depth 8

    pub usb_disconnect-Keeps : (n usbdev : ℕ) → Keeps (usb_disconnect env fuel n usbdev)
    unfolding usb_disconnect
    usb_disconnect-Keeps n usbdev =
        disconnect_with-Keeps (handle_events env fuel n) (handle_events-Keeps n) n usbdev

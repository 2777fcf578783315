-- ===== src/Usb/Events.antt =====
-- What happens while libusb handles events: `get_serial_callback`, `get_langid_callback`,
-- `usb_hotplug_cb` and `usb_disconnect` of src/usb.c, and the other callbacks by their events.
pub mod Sound
use usbmuxd_win_mce.Base.{
  ℕ, zero, suc, ◌+◌, ◌*◌, ◌%◌, Bool, false, not, none, some, List, [], ◌∷◌, is_neg, byte_at, ltb,
  ◌==◌, if◌then◌else◌,
}
use usbmuxd_win_mce.State.{UsbDevice, ControlCallback}
use usbmuxd_win_mce.State.Monad.{
  M, pure, ◌>>=◌, ◌>>◌, skip, faults, maybe, get, load_usb, store_usb, tick,
}
use usbmuxd_win_mce.Base.{ℤ}
use usbmuxd_win_mce.Env.{
  Env, TransferStatus, UsbEvent, tx_done, rx_done, langid_done, serial_done, mode_done, switch_done,
  arrived, left,
}
use usbmuxd_win_mce.Device.Registry.{device_add, device_remove}
use usbmuxd_win_mce.Usb.Serial.{serial_of}
use usbmuxd_win_mce.Usb.Transfers.{
  is_completed, mark, num_rx_loops, start_rx_loops, tx_callback, rx_callback, usb_disconnect_with,
}
use usbmuxd_win_mce.Usb.Modes.{
  find_device, string_transfer, submit_control, get_mode_cb, switch_mode_cb, usb_device_add,
}

abbrev pub with_serial : List ℕ → UsbDevice → UsbDevice
with_serial bytes u = record u { serial = serial_of bytes }

-- The language of the first entry of a device's list, a uint16_t.
unfoldable pub langid_of : List ℕ → ℕ
langid_of bytes = (byte_at bytes 2 + byte_at bytes 3 * 256) % 65536

module _ (env : Env) where
  unfoldable pub get_langid_callback : ℕ → TransferStatus → List ℕ → M (Unit {0})
  unfolding langid_of submit_control
  get_langid_callback usbdev status bytes = do
    u ← load_usb usbdev
    if not (is_completed status) then skip else (do
      _ ← submit_control env (
          string_transfer u.handle u.devdesc.serial_number (langid_of bytes)
            ControlCallback.get_serial_callback usbdev)
      skip)

  module _ (fuel : ℕ) (disconnect : ℕ → M (Unit {0})) where
    -- The device is served, or given up where no read could be started.
    unfoldable pub begin_serving : ℕ → M (Unit {0})
    begin_serving usbdev = do
      res ← device_add env usbdev
      if is_neg res then disconnect usbdev else (do
        rx_loops ← start_rx_loops env usbdev num_rx_loops
        if rx_loops == num_rx_loops
            then (do device_remove env fuel usbdev; disconnect usbdev)
            else skip)

    unfoldable pub get_serial_callback : ℕ → TransferStatus → List ℕ → M (Unit {0})
    unfolding begin_serving
    get_serial_callback usbdev status bytes = do
      u ← load_usb usbdev
      if not (is_completed status)
          then skip
          else (do store_usb usbdev (with_serial bytes u); begin_serving usbdev)

    unfoldable pub device_left : ℕ → M (Unit {0})
    device_left dev = do
      found ← find_device (env.libusb.get_bus_number dev) (env.libusb.get_device_address dev)
      maybe found skip (λ usbdev. do mark usbdev false; device_remove env fuel usbdev)

    unfoldable pub device_arrived : ℕ → M (Unit {0})
    device_arrived dev = do
      hotplug ← get (λ w. w.bus.device_hotplug)
      if hotplug then (do _ ← usb_device_add env dev; skip) else skip

    -- One callback; the last two are `usb_hotplug_cb`.
    unfoldable pub on_event : UsbEvent → M (Unit {0})
    unfolding get_serial_callback get_langid_callback device_left device_arrived
    on_event (tx_done usbdev xfer status) = tx_callback env usbdev xfer status
    on_event (rx_done usbdev xfer status buffer) = rx_callback env fuel usbdev xfer status buffer
    on_event (langid_done usbdev status bytes) = get_langid_callback usbdev status bytes
    on_event (serial_done usbdev status bytes) = get_serial_callback usbdev status bytes
    on_event (mode_done context handle status bytes) = get_mode_cb env context handle status bytes
    on_event (switch_done context handle status bytes) =
        switch_mode_cb env context handle status bytes
    on_event (arrived dev) = device_arrived dev
    on_event (left dev) = device_left dev

    unfoldable pub on_events : List UsbEvent → M (Unit {0})
    unfolding on_event
    on_events [] = skip
    on_events (e ∷ es) = do on_event e; on_events es

  module _ (fuel : ℕ) where
    -- libusb_handle_events_timeout. Nested calls get one round less; without a round left there is no
    -- outcome.
    unfoldable pub handle_events : ℕ → M ℤ
    unfolding on_events usb_disconnect_with
    handle_events zero = faults
    handle_events (suc n) = do
      call ← tick
      on_events fuel (usb_disconnect_with env fuel (handle_events n) n) (env.libusb.events call)
      pure (env.libusb.handle_events call)

    unfoldable pub usb_disconnect : ℕ → ℕ → M (Unit {0})
    unfolding handle_events
    usb_disconnect rounds usbdev = usb_disconnect_with env fuel (handle_events rounds) rounds usbdev

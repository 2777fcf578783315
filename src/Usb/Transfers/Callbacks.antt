-- ===== src/Usb/Transfers/Callbacks.antt =====
-- When a device can be disconnected (src/usb.c).
use usbmuxd_win_mce.Base.{
  ℕ, zero, suc, ◌+◌, ◌≡◌, refl, true, false, is_neg, arith, List, [], ◌∷◌, some, length,
}
use usbmuxd_win_mce.State.{World, UsbDevice}
use usbmuxd_win_mce.State.Monad.{done, fault}
use usbmuxd_win_mce.Env.{Env, TransferStatus}
use usbmuxd_win_mce.Device.Input.{device_data_input}
use usbmuxd_win_mce.Usb.Transfers.{is_quiet, wait_quiet, rx_callback}
use usbmuxd_win_mce.Usb.Events.{handle_events, on_events}

-- libusb has nothing more to call back: every call that handles its events succeeds, and runs no callback.
pub record IsIdle (env : Env) : Type 0 where
  pub no_events : (call : ℕ) → env.libusb.events call ≡ []
  pub succeeds : (call : ℕ) → is_neg (env.libusb.handle_events call) ≡ false

module _ (env : Env) (fuel : ℕ) where
  handle_events-idle :
      (n : ℕ) (w : World)
      → IsIdle env
      → handle_events env fuel (suc n) w
        ≡ done (env.libusb.handle_events w.calls) (record w { calls = w.calls + 1 })
  unfolding handle_events on_events
  handle_events-idle n w idle = let none = idle.no_events w.calls in rw (none) refl

  -- A device with a transfer in its list is waited for, however many rounds there are.
  wait_quiet-idle :
      (n rounds usbdev : ℕ) (u : UsbDevice) (w : World)
      → IsIdle env
      → w.usb usbdev ≡ some u
      → is_quiet u ≡ false
      → wait_quiet env fuel (handle_events env fuel (suc n)) rounds usbdev w ≡ fault
  unfolding wait_quiet
  wait_quiet-idle n zero usbdev u w idle h q = refl
  wait_quiet-idle n (suc rounds) usbdev u w idle h q = ground (
    arith,
    handle_events-idle n w idle,
    idle.succeeds w.calls,
    wait_quiet-idle n rounds usbdev u (record w { calls = w.calls + 1 }) idle h q,
  )

  -- Where libusb does not take the IN transfer again that it has completed, rx_callback leaves the
  -- device as the input from it did, with the transfer in its list. Unless libusb has something else to call back, the device can then not
  -- be disconnected: the wait for its transfers has no outcome, however many rounds it has.
  pub wait_quiet_stuck :
      (n rounds usbdev xfer : ℕ) (xfers buffer : List ℕ) (u : UsbDevice) (w v : World)
      → IsIdle env
      → device_data_input env fuel usbdev buffer (length buffer) w ≡ done tt v
      → v.usb usbdev ≡ some u
      → u.rx_xfers ≡ xfer ∷ xfers
      → is_neg (env.libusb.submit_in v.calls usbdev) ≡ true
      → (w' : World) × (rx_callback env fuel usbdev xfer TransferStatus.completed buffer w
          ≡ done tt w')
        × (w'.usb usbdev ≡ some u)
        × (wait_quiet env fuel (handle_events env fuel (suc n)) rounds usbdev w' ≡ fault)
  unfolding rx_callback
  wait_quiet_stuck n rounds usbdev xfer xfers buffer u w v idle e h x refused = (
    record v { calls = v.calls + 1 },
    ground (arith, e),
    h,
    wait_quiet-idle n rounds usbdev u (record v { calls = v.calls + 1 }) idle h (ground arith),
  )

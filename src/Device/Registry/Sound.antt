-- ===== src/Device/Registry/Sound.antt =====
-- Devices that come and go, and the acknowledgements that are due, keep the buffers of every client
-- (src/device.c).
use usbmuxd_win_mce.Base.{ℕ, ◌≡◌, refl, Bool, List, [], ◌∷◌, Option, none, some, arith}
use usbmuxd_win_mce.State.{World, MuxDevice}
use usbmuxd_win_mce.State.Monad.{modify}
use usbmuxd_win_mce.Env.{Env}
use usbmuxd_win_mce.Wire.{MuxProtocol}
use usbmuxd_win_mce.Client.Socket.Sound.{untouched-KeepsSound}
use usbmuxd_win_mce.Client.Broadcast.{client_device_remove}
use usbmuxd_win_mce.Client.Broadcast.Sound.{client_device_remove-KeepsSound}
use usbmuxd_win_mce.Client.Keeps.{Keeps, keeps_rules}
use usbmuxd_win_mce.Device.Packet.{send_packet, mstime64}
use usbmuxd_win_mce.Device.Lookup.{first_device, load_devices}
use usbmuxd_win_mce.Device.Connect.{get_next_device_id}
use usbmuxd_win_mce.Device.Teardown.{connection_teardown}
use usbmuxd_win_mce.Device.Teardown.Untouched.{
  send_packet-Untouched, first_device-Untouched, mstime64-Untouched,
}
use usbmuxd_win_mce.Device.Teardown.Sound.{connection_teardown-KeepsSound}
use usbmuxd_win_mce.Device.Transfer.{send_tcp_ack}
use usbmuxd_win_mce.Device.Transfer.Sound.{send_tcp_ack-KeepsSound}
use usbmuxd_win_mce.Device.Timeout.{ack_each, check_each, device_check_timeouts}
use usbmuxd_win_mce.Device.Registry.{
  device_add, teardown_each, teardown_all, remove_found, device_remove, preflight_device_remove_cb,
}

-- Any change of the state but of its clients.
pub modify-Keeps :
    (f : World → World) → ((w : World) → (f w).clients ≡ w.clients) → Keeps (modify f)
modify-Keeps f same = record {
  at = untouched-KeepsSound (modify f) (λ r w w' e. ground (arith, same w));
}

pub first_device-Keeps : (test : MuxDevice → Bool) (l : List ℕ) → Keeps (first_device test l)
first_device-Keeps test l = record {
  at = untouched-KeepsSound (first_device test l) (first_device-Untouched test l);
}

load_devices-Keeps : (l : List ℕ) → Keeps (load_devices l)
unfolding load_devices
load_devices-Keeps [] = search keeps_rules
load_devices-Keeps (p ∷ ps) = let rest = load_devices-Keeps ps in search keeps_rules

remove_cb-Keeps : (o : Option ℕ) → Keeps (preflight_device_remove_cb o)
remove_cb-Keeps none = search keeps_rules
remove_cb-Keeps (some p) = search keeps_rules

module _ (env : Env) where
  send_packet-Keeps :
      (dev : ℕ) (proto : MuxProtocol) (header payload : List ℕ)
      → Keeps (send_packet env dev proto header payload)
  send_packet-Keeps dev proto header payload = record {
    at =
        untouched-KeepsSound (send_packet env dev proto header payload)
          (send_packet-Untouched env dev proto header payload);
  }

  pub mstime64-Keeps : Keeps (mstime64 env)
  mstime64-Keeps = record { at = untouched-KeepsSound (mstime64 env) (mstime64-Untouched env) }

  listed-Keeps :
      (dev : ℕ)
      → Keeps (modify (λ w. record w { device_list = env.collection_add w.device_list dev }))
  listed-Keeps dev = modify-Keeps _ (λ w. refl)

  unlisted-Keeps :
      (dev : ℕ)
      → Keeps (modify (λ w. record w { device_list = env.collection_remove w.device_list dev }))
  unlisted-Keeps dev = modify-Keeps _ (λ w. refl)

  told-Keeps : (id : ℕ) → Keeps (client_device_remove env id)
  told-Keeps id = record { at = client_device_remove-KeepsSound env id }

  get_next_device_id-Keeps : Keeps get_next_device_id
  unfolding get_next_device_id
  get_next_device_id-Keeps = search (keeps_rules, load_devices-Keeps, modify-Keeps) depth 8

  pub device_add-Keeps : (usbdev : ℕ) → Keeps (device_add env usbdev)
  unfolding device_add
  device_add-Keeps usbdev =
      search (keeps_rules, send_packet-Keeps, listed-Keeps, get_next_device_id-Keeps) depth 12

  module _ (fuel : ℕ) where
    teardown-Keeps : (conn : ℕ) → Keeps (connection_teardown env fuel conn)
    teardown-Keeps conn = record { at = connection_teardown-KeepsSound env fuel conn }

    send_tcp_ack-Keeps : (conn : ℕ) → Keeps (send_tcp_ack env fuel conn)
    send_tcp_ack-Keeps conn = record { at = send_tcp_ack-KeepsSound env fuel conn }

    teardown_each-Keeps : (dev : ℕ) (l : List ℕ) → Keeps (teardown_each env fuel dev l)
    unfolding teardown_each
    teardown_each-Keeps dev [] = search keeps_rules
    teardown_each-Keeps dev (p ∷ ps) =
        let rest = teardown_each-Keeps dev ps in search (keeps_rules, teardown-Keeps) depth 12

    pub teardown_all-Keeps : (dev : ℕ) → Keeps (teardown_all env fuel dev)
    unfolding teardown_all
    teardown_all-Keeps dev = search (keeps_rules, teardown_each-Keeps)

    remove_found-Keeps : (dev : ℕ) → Keeps (remove_found env fuel dev)
    unfolding remove_found
    remove_found-Keeps dev =
        search (keeps_rules, teardown_all-Keeps, told-Keeps, remove_cb-Keeps, unlisted-Keeps) depth
          12

    pub device_remove-Keeps : (usbdev : ℕ) → Keeps (device_remove env fuel usbdev)
    unfolding device_remove
    device_remove-Keeps usbdev = search (keeps_rules, first_device-Keeps, remove_found-Keeps)

    ack_each-Keeps : (ct dev : ℕ) (l : List ℕ) → Keeps (ack_each env fuel ct dev l)
    unfolding ack_each
    ack_each-Keeps ct dev [] = search keeps_rules
    ack_each-Keeps ct dev (p ∷ ps) =
        let rest = ack_each-Keeps ct dev ps in search (keeps_rules, send_tcp_ack-Keeps) depth 12

    check_each-Keeps : (ct : ℕ) (l : List ℕ) → Keeps (check_each env fuel ct l)
    unfolding check_each
    check_each-Keeps ct [] = search keeps_rules
    check_each-Keeps ct (p ∷ ps) =
        let rest = check_each-Keeps ct ps in search (keeps_rules, ack_each-Keeps) depth 12

    pub device_check_timeouts-Keeps : Keeps (device_check_timeouts env fuel)
    unfolding device_check_timeouts
    device_check_timeouts-Keeps = search (keeps_rules, mstime64-Keeps, check_each-Keeps)

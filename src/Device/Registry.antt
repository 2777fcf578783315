-- ===== src/Device/Registry.antt =====
-- Devices come and go: `device_add`, `device_remove`, `device_init`, `device_kill_connections` and
-- `device_shutdown` of src/device.c.
pub mod Sound
use usbmuxd_win_mce.Base.{
  ℕ, false, Option, none, some, List, [], ◌∷◌, ℤ, pos, is_neg, contains, ◌==◌, if◌then◌else◌,
}
use usbmuxd_win_mce.State.{MuxDevice, MuxDevState}
use usbmuxd_win_mce.State.Monad.{
  M, pure, ◌>>=◌, ◌>>◌, skip, maybe, get, modify, deref, alloc, load_device, store_device,
  free_device, load_callback, store_callback,
}
use usbmuxd_win_mce.Env.{Env}
use usbmuxd_win_mce.Wire.{MuxProtocol, version_header}
use usbmuxd_win_mce.Client.Broadcast.{client_device_remove}
use usbmuxd_win_mce.Device.Connect.{get_next_device_id}
use usbmuxd_win_mce.Device.Packet.{send_packet}
use usbmuxd_win_mce.Device.Lookup.{first_device}
use usbmuxd_win_mce.Device.Teardown.{connection_teardown}
use usbmuxd_win_mce.Device.Info.{is_active}
use usbmuxd_win_mce.Device.Input.{is_init}

-- The worker that waits on this record learns that its device is gone (src/preflight.c).
abbrev pub preflight_device_remove_cb : Option ℕ → M (Unit {0})
preflight_device_remove_cb none = skip
preflight_device_remove_cb (some p) = do
  c ← load_callback p
  store_callback p (record c { is_device_connected = false })

-- The device that `device_add` fills in.
abbrev pub new_device : ℕ → ℕ → MuxDevice
new_device usbdev id = record {
  usbdev = usbdev;
  id = id;
  state = MuxDevState.init;
  visible = false;
  connections = none;
  next_sport = 1;
  pktbuf = [];
  preflight_cb_data = none;
  version = 0;
  rx_seq = 0;
  tx_seq = 0;
}

unfoldable pub device_init : M (Unit {0})
device_init = modify λ w. record w { device_list = []; next_device_id = 1 }

module _ (env : Env) where
  unfoldable pub device_add : ℕ → M ℤ
  device_add usbdev = do
    id ← get_next_device_id
    dev ← alloc
    store_device dev (new_device usbdev id)
    res ← send_packet env dev MuxProtocol.version (version_header 2 0 0) []
    if is_neg res then (do free_device dev; pure res) else (do
      modify (λ w. record w { device_list = env.collection_add w.device_list dev })
      pure (pos 0))

  module _ (fuel : ℕ) where
    -- FOREACH over the connections of a device; one that is gone by its turn is passed over.
    unfoldable pub teardown_each : ℕ → List ℕ → M (Unit {0})
    teardown_each dev [] = skip
    teardown_each dev (p ∷ ps) = do
      d ← load_device dev
      cs ← deref d.connections
      if contains p cs then connection_teardown env fuel p else skip
      teardown_each dev ps

    unfoldable pub teardown_all : ℕ → M (Unit {0})
    unfolding teardown_each
    teardown_all dev = do d ← load_device dev; cs ← deref d.connections; teardown_each dev cs

    unfoldable pub remove_found : ℕ → M (Unit {0})
    unfolding teardown_all
    remove_found dev = do
      d ← load_device dev
      if is_active d.state
          then (do
            store_device dev (record d { state = MuxDevState.dead })
            teardown_all dev
            client_device_remove env d.id)
          else skip
      d' ← load_device dev
      preflight_device_remove_cb d'.preflight_cb_data
      modify (λ w. record w { device_list = env.collection_remove w.device_list dev })
      free_device dev

    unfoldable pub device_remove : ℕ → M (Unit {0})
    unfolding remove_found
    device_remove usbdev = do
      l ← get (λ w. w.device_list)
      found ← first_device (λ d. d.usbdev == usbdev) l
      maybe found skip remove_found

    unfoldable pub kill_each : List ℕ → M (Unit {0})
    kill_each [] = skip
    kill_each (p ∷ ps) = do
      d ← load_device p
      if is_init d.state then skip else teardown_all p
      kill_each ps

    unfoldable pub device_kill_connections : M (Unit {0})
    unfolding kill_each
    device_kill_connections = do l ← get (λ w. w.device_list); kill_each l

    unfoldable pub shutdown_each : List ℕ → M (Unit {0})
    shutdown_each [] = skip
    shutdown_each (p ∷ ps) = do
      teardown_all p
      modify (λ w. record w { device_list = env.collection_remove w.device_list p })
      free_device p
      shutdown_each ps

    unfoldable pub device_shutdown : M (Unit {0})
    unfolding shutdown_each
    device_shutdown = do l ← get (λ w. w.device_list); shutdown_each l

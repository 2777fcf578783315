-- ===== src/Client/Broadcast.antt =====
-- Events for every listening client: `client_device_add`, `client_device_remove` and
-- `client_device_paired` of src/client.c, and `preflight_worker_device_add` of src/preflight.c.
pub mod Frame
pub mod Sound
use usbmuxd_win_mce.Base.{ℕ, Bool, true, false, ◌||◌, List, [], ◌∷◌, ℤ, ◌==◌, if◌then◌else◌}
use usbmuxd_win_mce.State.{World, DeviceInfo}
use usbmuxd_win_mce.State.Monad.{M, pure, ◌>>=◌, ◌>>◌, skip, get, modify, tick, load_client}
use usbmuxd_win_mce.Env.{Env}
use usbmuxd_win_mce.Client.Output.{send_device_add, send_device_remove, send_device_paired}
use usbmuxd_win_mce.Client.Socket.{is_listen}
use usbmuxd_win_mce.Device.Info.{device_set_visible}

-- FOREACH over the clients, to those that listen; what the send returns is not looked at.
unfoldable pub to_listeners : (ℕ → M ℤ) → List ℕ → M (Unit {0})
to_listeners send [] = skip
to_listeners send (p ∷ ps) = do
  c ← load_client p
  if is_listen c.state then (do _ ← send p; skip) else skip
  to_listeners send ps

abbrev pub pid_apple_t2_coprocessor : ℕ
pid_apple_t2_coprocessor = 0x8600

module _ (env : Env) where
  unfoldable pub client_device_add : DeviceInfo → M (Unit {0})
  client_device_add dev = do
    device_set_visible dev.id
    l ← get (λ w. w.client_list)
    to_listeners (λ p. send_device_add env p dev) l

  unfoldable pub client_device_remove : ℕ → M (Unit {0})
  client_device_remove device_id = do
    l ← get (λ w. w.client_list)
    to_listeners (λ p. send_device_remove env p device_id) l

  unfoldable pub client_device_paired : ℕ → M (Unit {0})
  client_device_paired device_id = do
    l ← get (λ w. w.client_list)
    to_listeners (λ p. send_device_paired env p device_id) l

  -- A worker thread that was started shows as its device in `workers`.
  unfoldable pub preflight_worker_device_add : DeviceInfo → M (Unit {0})
  preflight_worker_device_add info =
      if info.pid == pid_apple_t2_coprocessor || env.no_preflight
      then client_device_add info
      else if env.have_libimobiledevice
      then (do
        call ← tick
        if env.thread_new call
            then modify (λ w. record w { workers = info ∷ w.workers })
            else client_device_add info)
      else client_device_add info

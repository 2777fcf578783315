-- ===== src/Preflight/Wait.antt =====
-- The wait of a worker for its user: the loop of preflight_worker_handle_device_add (src/preflight.c)
-- and what happens around it.
pub mod Freed
pub mod Ended
use usbmuxd_win_mce.Base.{
  ℕ, ◌-◌, Bool, true, false, not, ◌&&◌, none, some, List, [], ◌∷◌, ◌==◌, if◌then◌else◌,
}
use usbmuxd_win_mce.State.{World, DeviceInfo, CbData}
use usbmuxd_win_mce.State.Monad.{
  M, pure, ◌>>=◌, ◌>>◌, skip, faults, get, when, modify_preflight, load_callback, free_callback,
}
use usbmuxd_win_mce.Env.{Env}
use usbmuxd_win_mce.Device.Info.{device_set_preflight_cb_data}
use usbmuxd_win_mce.Device.Registry.{preflight_device_remove_cb}
use usbmuxd_win_mce.Preflight.Lockdown.{np_callback}
use usbmuxd_win_mce.Preflight.Worker.{Phase, ended, waits, preflight_worker_handle_device_add}

-- The condition of the loop.
abbrev pub is_waiting : CbData → Bool
is_waiting c = c.np && c.is_device_connected && not c.is_finished

unfoldable pub np_client_free : M (Unit {0})
np_client_free = do
  n ← get (λ w. w.preflight.proxies)
  if n == 0 then faults else modify_preflight (λ s. record s { proxies = n - 1 })

-- Behind the loop: the device is told that nobody waits, and the record goes with the worker's stack.
unfoldable pub end_wait : DeviceInfo → ℕ → M Phase
end_wait info cb = do
  device_set_preflight_cb_data info.id none
  c ← load_callback cb
  when c.np np_client_free
  free_callback cb
  pure ended

-- The worker wakes up after a second.
unfoldable pub wake : DeviceInfo → ℕ → M Phase
unfolding end_wait
wake info cb = do c ← load_callback cb; if is_waiting c then pure (waits cb) else end_wait info cb

-- What happens while a worker waits, in any order.
pub data Incident : Type 0 where
  notified : List ℕ → Incident
  removed slept : Incident

abbrev pub is_ended : Phase → Bool
is_ended ended = true
is_ended (waits cb) = false

module _ (env : Env) (info : DeviceInfo) (cb : ℕ) where
  unfoldable pub on_incident : Incident → M Phase
  on_incident (notified notification) = do np_callback env notification cb; pure (waits cb)
  on_incident removed = do preflight_device_remove_cb (some cb); pure (waits cb)
  on_incident slept = wake info cb

  -- Nothing more happens to a worker that has returned.
  unfoldable pub on_incidents : List Incident → M Phase
  unfolding on_incident
  on_incidents [] = pure (waits cb)
  on_incidents (x ∷ xs) = do
    phase ← on_incident x
    if is_ended phase then pure ended else on_incidents xs

module _ (env : Env) (info : DeviceInfo) where
  -- What follows the start of a worker.
  unfoldable pub lives_on : List Incident → Phase → M Phase
  unfolding on_incidents
  lives_on incidents ended = pure ended
  lives_on incidents (waits cb) = on_incidents env info cb incidents

  -- A worker from its start, with what happens while it waits.
  unfoldable pub life : List Incident → M Phase
  unfolding lives_on
  life incidents = do phase ← preflight_worker_handle_device_add env info; lives_on incidents phase

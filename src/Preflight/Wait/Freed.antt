-- ===== src/Preflight/Wait/Freed.antt =====
-- From its start to its end a worker frees the clients of lockdownd that it opens (src/preflight.c).
use usbmuxd_win_mce.Base.{ℕ, ◌≡◌, false, List, [], ◌∷◌, arith}
use usbmuxd_win_mce.State.{World, DeviceInfo}
use usbmuxd_win_mce.State.Monad.{done}
use usbmuxd_win_mce.Env.{Env}
use usbmuxd_win_mce.Preflight.Balanced.{
  Balanced, Balanced-step, Steady, balanced_rules, steady_rules,
}
use usbmuxd_win_mce.Preflight.Lockdown.{np_callback}
use usbmuxd_win_mce.Preflight.Worker.{Phase, ended, waits, preflight_worker_handle_device_add}
use usbmuxd_win_mce.Preflight.Worker.Freed.{
  none_left, pair-Steady, told-Steady, cb_data-Steady, worker-Balanced,
}
use usbmuxd_win_mce.Preflight.Wait.{
  np_client_free, wake, Incident, notified, removed, slept, on_incident, on_incidents, lives_on,
  life,
}

proxy-Steady : Steady np_client_free
unfolding np_client_free
proxy-Steady = search steady_rules depth 8

ruleset wait_rules =
    (balanced_rules, steady_rules, pair-Steady, told-Steady, cb_data-Steady, proxy-Steady)

module _ (env : Env) where
  np_callback-Balanced :
      (notification : List ℕ) (cb : ℕ) → Balanced false none_left (np_callback env notification cb)
  unfolding np_callback
  np_callback-Balanced [] cb = search wait_rules depth 12
  np_callback-Balanced (c ∷ cs) cb = search wait_rules depth 16

  wake-Balanced : (info : DeviceInfo) (cb : ℕ) → Balanced false none_left (wake info cb)
  unfolding wake
  wake-Balanced info cb = search (wait_rules) depth 16

  on_incident-Balanced :
      (info : DeviceInfo) (cb : ℕ) (x : Incident)
      → Balanced false none_left (on_incident env info cb x)
  unfolding on_incident
  on_incident-Balanced info cb (notified notification) =
      Balanced-step (np_callback env notification cb) _ (np_callback-Balanced notification cb)
        (λ _. search wait_rules)
  on_incident-Balanced info cb removed = search wait_rules depth 12
  on_incident-Balanced info cb slept = wake-Balanced info cb

  on_incidents-Balanced :
      (info : DeviceInfo) (cb : ℕ) (xs : List Incident)
      → Balanced false none_left (on_incidents env info cb xs)
  unfolding on_incidents
  on_incidents-Balanced info cb [] = search wait_rules
  on_incidents-Balanced info cb (x ∷ xs) =
      Balanced-step (on_incident env info cb x) _ (on_incident-Balanced info cb x)
        λ phase. let rest = on_incidents-Balanced info cb xs in search wait_rules depth 8

  lives_on-Balanced :
      (info : DeviceInfo) (xs : List Incident) (phase : Phase)
      → Balanced false none_left (lives_on env info xs phase)
  unfolding lives_on
  lives_on-Balanced info xs ended = search wait_rules
  lives_on-Balanced info xs (waits cb) = on_incidents-Balanced info cb xs

  -- Whatever lockdownd answers and whatever happens while the worker waits, at the end as many clients of
  -- lockdownd are open as before the worker: it frees what it opened, on each of its paths.
  pub life_frees :
      (info : DeviceInfo) (xs : List Incident) (phase : Phase) (w w' : World)
      → life env info xs w ≡ done phase w'
      → w'.preflight.lockdowns ≡ w.preflight.lockdowns
  unfolding life
  life_frees info xs phase w w' e =
      let whole =
        Balanced-step (preflight_worker_handle_device_add env info) (lives_on env info xs)
          (worker-Balanced env info) (lives_on-Balanced info xs) in
      let balanced = whole.at phase w w' e in omega arith

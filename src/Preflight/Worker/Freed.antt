-- ===== src/Preflight/Worker/Freed.antt =====
-- A worker frees the clients of lockdownd that it opens (src/preflight.c).
use usbmuxd_win_mce.Base.{ℕ, zero, suc, Bool, true, false, Option, none, some, List}
use usbmuxd_win_mce.State.{DeviceInfo}
use usbmuxd_win_mce.State.Monad.{pure, faults, maybe, alloc}
use usbmuxd_win_mce.Env.{Env}
use usbmuxd_win_mce.Env.Lockdown.{
  LockdownError, success, invalid_host_id, ssl_error, password_protected, other,
}
use usbmuxd_win_mce.Conf.Records.{
  config_remove_device_record, config_has_device_record, config_device_record_get_host_id,
  config_get_system_buid,
}
use usbmuxd_win_mce.Client.Broadcast.{client_device_add}
use usbmuxd_win_mce.Device.Info.{device_set_preflight_cb_data}
use usbmuxd_win_mce.Preflight.Quiet.{
  alloc-Quiet, cb_data-Quiet, client_device_add-Quiet, has_record-Quiet, host_id-Quiet,
  remove_record-Quiet, system_buid-Quiet,
}
use usbmuxd_win_mce.Preflight.Balanced.{
  Balanced, Balanced-step, Steady, Quiet-Steady, Steady-modify, balanced_rules, steady_rules,
}
use usbmuxd_win_mce.Preflight.Lockdown.{lockdownd_pair, lockdownd_set_untrusted_host_buid}
use usbmuxd_win_mce.Preflight.Contact.{
  Contact, unreachable, leaves, in_touch, stored_session, after_session, with_type, attempt,
  contact,
}
use usbmuxd_win_mce.Preflight.Product.{product_version, device_class}
use usbmuxd_win_mce.Preflight.Worker.{
  observe, paired_now, with_trust_dialog, validated, without_trust_dialog, with_product, on_contact,
  preflight_worker_handle_device_add,
}

-- Has the worker a client after its contact? It has none before another attempt.
abbrev has_client : Option Contact → Bool
has_client none = false
has_client (some unreachable) = false
has_client (some leaves) = true
has_client (some (in_touch paired)) = true

-- None is left after the worker.
abbrev pub none_left : {A : Type 0} → A → Bool
none_left a = false

pub alloc-Steady : Steady alloc
alloc-Steady = Quiet-Steady alloc alloc-Quiet

module _ (env : Env) where
  pub add-Steady : (info : DeviceInfo) → Steady (client_device_add env info)
  add-Steady info =
      Quiet-Steady (client_device_add env info) (λ s. client_device_add-Quiet s env info)

  pub cb_data-Steady : (id : ℕ) (cb : Option ℕ) → Steady (device_set_preflight_cb_data id cb)
  cb_data-Steady id cb =
      Quiet-Steady (device_set_preflight_cb_data id cb) (λ s. cb_data-Quiet s id cb)

  pub remove-Steady : (udid : List ℕ) → Steady (config_remove_device_record env udid)
  remove-Steady udid =
      Quiet-Steady (config_remove_device_record env udid) (λ s. remove_record-Quiet s env udid)

  has_record-Steady : (udid : List ℕ) → Steady (config_has_device_record env udid)
  has_record-Steady udid =
      Quiet-Steady (config_has_device_record env udid) (λ s. has_record-Quiet s env udid)

  pub host_id-Steady : (udid : List ℕ) → Steady (config_device_record_get_host_id env udid)
  host_id-Steady udid =
      Quiet-Steady (config_device_record_get_host_id env udid) (λ s. host_id-Quiet s env udid)

  buid-Steady : Steady (config_get_system_buid env)
  buid-Steady = Quiet-Steady (config_get_system_buid env) (λ s. system_buid-Quiet s env)

  pub session-Steady : (info : DeviceInfo) → Steady (stored_session env info)
  unfolding stored_session
  session-Steady info = search (steady_rules, has_record-Steady, host_id-Steady) depth 12

  pub pair-Steady : Steady (lockdownd_pair env)
  unfolding lockdownd_pair
  pair-Steady = search steady_rules depth 8

  pub told-Steady : Steady (lockdownd_set_untrusted_host_buid env)
  unfolding lockdownd_set_untrusted_host_buid
  told-Steady = search (steady_rules, buid-Steady) depth 8

  pub ruleset worker_rules = (
    balanced_rules, steady_rules, alloc-Steady, add-Steady, cb_data-Steady, remove-Steady,
    host_id-Steady, session-Steady, pair-Steady, told-Steady,
  )

  after_session-Balanced :
      (info : DeviceInfo) (lerr : LockdownError)
      → Balanced true has_client (after_session env info lerr)
  unfolding after_session
  after_session-Balanced info success = search worker_rules
  after_session-Balanced info ssl_error = search worker_rules depth 8
  after_session-Balanced info invalid_host_id = search worker_rules
  after_session-Balanced info password_protected = search worker_rules
  after_session-Balanced info other = search worker_rules

  attempt-Balanced : (info : DeviceInfo) → Balanced false has_client (attempt env info)
  unfolding attempt with_type
  attempt-Balanced info = search (worker_rules, after_session-Balanced) depth 14

  contact-Balanced : (info : DeviceInfo) (n : ℕ) → Balanced false has_client (contact env info n)
  unfolding contact
  contact-Balanced info zero = search worker_rules
  contact-Balanced info (suc n) =
      Balanced-step (attempt env info) _ (attempt-Balanced info)
        λ made. again made (contact-Balanced info n)
    where
      again :
          (made : Option Contact)
          → Balanced false has_client (contact env info n)
          → Balanced
              (has_client made)
              has_client
              (maybe made (contact env info n) (λ c. pure (some c)))
      again none rest = rest
      again (some c) rest = search worker_rules

  validated-Balanced : (info : DeviceInfo) → Balanced true none_left (validated env info)
  unfolding validated
  validated-Balanced info = search worker_rules depth 12

  observe-Balanced : (info : DeviceInfo) → Balanced true none_left (observe env info)
  unfolding observe
  observe-Balanced info = search worker_rules depth 16

  paired-Steady : (info : DeviceInfo) (paired : Bool) → Steady (paired_now env info paired)
  unfolding paired_now
  paired-Steady info paired = search (steady_rules, pair-Steady) depth 8

  dialog-Balanced :
      (info : DeviceInfo) (paired : Bool)
      → Balanced true none_left (with_trust_dialog env info paired)
  unfolding with_trust_dialog
  dialog-Balanced info paired = search (worker_rules, paired-Steady, observe-Balanced) depth 12

  no_dialog-Balanced : (info : DeviceInfo) → Balanced true none_left (without_trust_dialog env info)
  unfolding without_trust_dialog
  no_dialog-Balanced info = search (worker_rules, validated-Balanced) depth 12

  version-Steady : Steady (product_version env)
  unfolding product_version
  version-Steady = search steady_rules

  class-Steady : Steady (device_class env)
  unfolding device_class
  class-Steady = search steady_rules

  product-Balanced :
      (info : DeviceInfo) (paired : Bool) → Balanced true none_left (with_product env info paired)
  unfolding with_product
  product-Balanced info paired =
      search (worker_rules, version-Steady, class-Steady, dialog-Balanced, no_dialog-Balanced) depth
        12

  on_contact-Balanced :
      (info : DeviceInfo) (made : Option Contact)
      → Balanced (has_client made) none_left (maybe made faults (on_contact env info))
  unfolding on_contact
  on_contact-Balanced info none = search worker_rules
  on_contact-Balanced info (some unreachable) = search worker_rules
  on_contact-Balanced info (some leaves) = search worker_rules
  on_contact-Balanced info (some (in_touch paired)) = product-Balanced info paired

  pub worker-Balanced :
      (info : DeviceInfo) → Balanced false none_left (preflight_worker_handle_device_add env info)
  unfolding preflight_worker_handle_device_add
  worker-Balanced info =
      Balanced-step (contact env info 2) _ (contact-Balanced info 2) (on_contact-Balanced info)

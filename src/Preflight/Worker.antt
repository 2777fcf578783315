-- ===== src/Preflight/Worker.antt =====
-- The worker: preflight_worker_handle_device_add of src/preflight.c, up to its wait for the user.
pub mod Freed
pub mod Shown
use usbmuxd_win_mce.Base.{
  ℕ, ◌+◌, Bool, true, false, not, Option, none, some, List, ℤ, if◌then◌else◌,
}
use usbmuxd_win_mce.State.{World, DeviceInfo, observes}
use usbmuxd_win_mce.State.Monad.{
  M, pure, ◌>>=◌, ◌>>◌, faults, maybe, alloc, modify_preflight, tick, store_callback,
}
use usbmuxd_win_mce.Env.{Env}
use usbmuxd_win_mce.Env.Lockdown.{LockdownError}
use usbmuxd_win_mce.Conf.Records.{config_device_record_get_host_id}
use usbmuxd_win_mce.Client.Broadcast.{client_device_add}
use usbmuxd_win_mce.Device.Info.{device_set_preflight_cb_data}
use usbmuxd_win_mce.Preflight.Lockdown.{
  is_success, request, lockdownd_client_free, lockdownd_pair, lockdownd_set_untrusted_host_buid,
}
use usbmuxd_win_mce.Preflight.Contact.{Contact, unreachable, leaves, in_touch, contact}
use usbmuxd_win_mce.Preflight.Product.{product_version, device_class, version_major, asks_for_trust}

-- The worker has returned, or it waits on a record.
pub data Phase : Type 0 where
  ended : Phase
  waits : ℕ → Phase

-- The label `leave`, with a client of lockdownd.
abbrev pub leave : M Phase
leave = do lockdownd_client_free; pure ended

module _ (env : Env) (info : DeviceInfo) where
  abbrev pub shown : M Phase
  shown = do client_device_add env info; leave

  -- The device asks its user, and the worker is told of the answer.
  unfoldable pub observe : M Phase
  observe = do
    call ← tick
    let np = env.lockdown.np_client_new call
    lockdownd_client_free
    cb ← alloc
    store_callback cb (record { np = np; is_device_connected = true; is_finished = false })
    modify_preflight (λ s. record s { proxies = if np then s.proxies + 1 else s.proxies })
    device_set_preflight_cb_data info.id (some cb)
    request observes
    client_device_add env info
    pure (waits cb)

  -- lockdownd_pair, if the device is not paired; is it now?
  unfoldable pub paired_now : Bool → M Bool
  paired_now is_device_paired =
      if is_device_paired
      then pure false
      else (do lerr ← lockdownd_pair env; pure (is_success lerr))

  unfoldable pub with_trust_dialog : Bool → M Phase
  unfolding observe paired_now
  with_trust_dialog is_device_paired = do
    lockdownd_set_untrusted_host_buid env
    paired ← paired_now is_device_paired
    if paired then shown else (do
      call ← tick
      if is_success (env.lockdown.start_service call) then observe else shown)

  -- The session and the validation of an old device's new pairing.
  unfoldable pub validated : M Phase
  validated = do
    host_id ← config_device_record_get_host_id env info.serial
    call ← tick
    if not (is_success (env.lockdown.start_session call host_id)) then leave else (do
      call' ← tick
      if is_success (env.lockdown.validate_pair call') then shown else leave)

  -- iOS 6 and earlier
  unfoldable pub without_trust_dialog : M Phase
  unfolding validated
  without_trust_dialog = do lerr ← lockdownd_pair env; if is_success lerr then validated else shown

  unfoldable pub with_product : Bool → M Phase
  unfolding with_trust_dialog without_trust_dialog
  with_product is_device_paired = do
    version ← product_version env
    maybe version leave (λ v. do
      class ← device_class env
      maybe class leave (λ c.
          if asks_for_trust c (version_major v)
          then with_trust_dialog is_device_paired
          else without_trust_dialog))

  unfoldable pub on_contact : Contact → M Phase
  unfolding with_product
  on_contact unreachable = pure ended
  on_contact leaves = leave
  on_contact (in_touch is_device_paired) = with_product is_device_paired

  -- Contact is made in at most two attempts.
  unfoldable pub preflight_worker_handle_device_add : M Phase
  unfolding on_contact
  preflight_worker_handle_device_add = do made ← contact env info 2; maybe made faults on_contact

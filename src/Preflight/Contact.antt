-- ===== src/Preflight/Contact.antt =====
-- The worker makes contact with the device: from the label `retry` of preflight_worker_handle_device_add
-- (src/preflight.c) to the end of the switch on the result of the session.
pub mod NoRecord
pub mod Retried
use usbmuxd_win_mce.Base.{
  ℕ, zero, suc, Bool, true, false, not, Option, none, some, List, ℤ, is_zero, if◌then◌else◌, codes,
  bytes_eq,
}
use usbmuxd_win_mce.State.{World, DeviceInfo}
use usbmuxd_win_mce.State.Monad.{M, pure, ◌>>=◌, ◌>>◌, maybe, tick}
use usbmuxd_win_mce.Env.{Env}
use usbmuxd_win_mce.Env.Lockdown.{
  LockdownError, success, invalid_host_id, ssl_error, password_protected, other,
}
use usbmuxd_win_mce.Conf.Records.{
  config_has_device_record, config_device_record_get_host_id, config_remove_device_record,
}
use usbmuxd_win_mce.Client.Broadcast.{client_device_add}
use usbmuxd_win_mce.Preflight.Lockdown.{lockdownd_client_new, lockdownd_client_free}

-- There is no client of lockdownd; the worker leaves with one; or it goes on with one, and knows whether
-- the device is paired.
pub data Contact : Type 0 where
  unreachable leaves : Contact
  in_touch : Bool → Contact

module _ (env : Env) (info : DeviceInfo) where
  -- Any result but 0 of config_has_device_record counts as a record.
  unfoldable pub stored_session : M LockdownError
  stored_session = do
    known ← config_has_device_record env info.serial
    if is_zero known then pure invalid_host_id else (do
      host_id ← config_device_record_get_host_id env info.serial
      call ← tick
      pure (env.lockdown.start_session call host_id))

  -- `none` is the jump back to `retry`, after the removal of an invalid record.
  unfoldable pub after_session : LockdownError → M (Option Contact)
  after_session success = do client_device_add env info; pure (some leaves)
  after_session invalid_host_id = pure (some (in_touch false))
  after_session ssl_error = do
    res ← config_remove_device_record env info.serial
    if is_zero res then (do lockdownd_client_free; pure none) else pure (some (in_touch false))
  after_session _ = pure (some (in_touch true))

  -- A device that is not in its normal mode is made visible at once.
  unfoldable pub with_type : List ℕ → M (Option Contact)
  unfolding stored_session after_session
  with_type type =
      if not (bytes_eq type (codes "com.apple.mobile.lockdown"))
      then (do client_device_add env info; pure (some leaves))
      else (do lerr ← stored_session; after_session lerr)

  unfoldable pub attempt : M (Option Contact)
  unfolding with_type
  attempt = do
    opened ← lockdownd_client_new env
    if not opened
        then pure (some unreachable)
        else (do call ← tick; maybe (env.lockdown.query_type call) (pure (some leaves)) with_type)

  -- `none` would be a jump back after the last of the attempts.
  unfoldable pub contact : ℕ → M (Option Contact)
  contact zero = pure none
  contact (suc fuel) = do made ← attempt; maybe made (contact fuel) (λ c. pure (some c))

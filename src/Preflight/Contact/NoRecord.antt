-- ===== src/Preflight/Contact/NoRecord.antt =====
-- What a device without a pairing record on disk keeps while a worker makes contact with it
-- (src/preflight.c, src/conf.c).
use usbmuxd_win_mce.Base.{
  ℕ, ◌⊎◌, ◌+◌, zero, suc, ◌≡◌, ◌≢◌, refl, none, some, List, ◌∷◌, arith, inl, inr,
}
use usbmuxd_win_mce.State.{World, DeviceInfo, PreflightState}
use usbmuxd_win_mce.State.Monad.{done, tick, modify, modify_preflight}
use usbmuxd_win_mce.State.Monad.Preserves.{
  Preserves, Preserves-tick, Preserves-modify, preserves_rules,
}
use usbmuxd_win_mce.Env.{Env, MkdirResult, mkdir_done, mkdir_exists, mkdir_failed}
use usbmuxd_win_mce.Conf.Paths.{
  file_in, config_get_config_dir, mkdir_with_parents, config_create_config_dir,
}
use usbmuxd_win_mce.Conf.Records.{
  config_has_device_record, config_device_record_get_host_id, internal_get_value, read_plist,
}
use usbmuxd_win_mce.Preflight.Lockdown.{lockdownd_client_new, lockdownd_client_free}
use usbmuxd_win_mce.Preflight.Contact.{stored_session}

-- The directory is known, and the device has no record in it.
pub record HasNoRecord (dir udid : List ℕ) (w : World) : Type 0 where
  pub known : w.config_dir ≡ some dir
  pub absent : w.files (file_in dir udid) ≡ none

pub made : (r : MkdirResult) → (r ≢ mkdir_failed) ⊎ (r ≡ mkdir_failed)
made mkdir_done = inl (λ e. cc)
made mkdir_exists = inl (λ e. cc)
made mkdir_failed = inr refl

module _ (dir udid : List ℕ) where
  pub tick-NoRecord : Preserves (HasNoRecord dir udid) tick
  tick-NoRecord = Preserves-tick (λ w p. record { known = p.known; absent = p.absent })

  dir-NoRecord : Preserves (HasNoRecord dir udid) config_get_config_dir
  unfolding config_get_config_dir
  dir-NoRecord = record {
    at = λ r w w' e p.
        let known = p.known in
        let absent = p.absent in record { known = ground arith; absent = ground arith };
  }

  made-NoRecord :
      (path : List ℕ)
      → Preserves (HasNoRecord dir udid) (modify (λ w. record w { made = path ∷ w.made }))
  made-NoRecord path = Preserves-modify _ (λ w p. record { known = p.known; absent = p.absent })

  modify_preflight-NoRecord :
      (f : PreflightState → PreflightState) → Preserves (HasNoRecord dir udid) (modify_preflight f)
  modify_preflight-NoRecord f = record {
    at = λ r w w' e p.
        let known = p.known in
        let absent = p.absent in record { known = ground arith; absent = ground arith };
  }

ruleset no_record_rules =
    (preserves_rules, tick-NoRecord, dir-NoRecord, made-NoRecord, modify_preflight-NoRecord)

module _ (env : Env) (dir udid : List ℕ) where
  mkdir-NoRecord :
      (fuel : ℕ) (path : List ℕ)
      → Preserves (HasNoRecord dir udid) (mkdir_with_parents env fuel path)
  unfolding mkdir_with_parents
  mkdir-NoRecord zero path = search no_record_rules
  mkdir-NoRecord (suc fuel) path = record {
    at = λ r w w' e p.
        let known = p.known in
        let absent = p.absent in
        let v = record w { calls = w.calls + 1 } in
        let rest = λ (f : mkdir_with_parents env fuel (env.dirname path) v ≡ done r w').
          (mkdir-NoRecord fuel (env.dirname path)).at r v w' f
            (record { known = known; absent = absent }) in
        elim (made (env.mkdir w.calls path)) [
          | inl fine ↦ record { known = ground arith; absent = ground arith }
          | inr failed ↦ rest (ground arith)
        ];
  }

  create_dir-NoRecord : Preserves (HasNoRecord dir udid) (config_create_config_dir env)
  unfolding config_create_config_dir
  create_dir-NoRecord = search (no_record_rules, mkdir-NoRecord) depth 8

  has_record-NoRecord :
      (known : List ℕ) → Preserves (HasNoRecord dir udid) (config_has_device_record env known)
  unfolding config_has_device_record
  has_record-NoRecord known = search (no_record_rules, create_dir-NoRecord) depth 12

  host_id-NoRecord :
      (known : List ℕ)
      → Preserves (HasNoRecord dir udid) (config_device_record_get_host_id env known)
  unfolding config_device_record_get_host_id internal_get_value read_plist
  host_id-NoRecord known = search no_record_rules depth 12

  pub client_new-NoRecord : Preserves (HasNoRecord dir udid) (lockdownd_client_new env)
  unfolding lockdownd_client_new
  client_new-NoRecord = search no_record_rules depth 12

  pub client_free-NoRecord : Preserves (HasNoRecord dir udid) lockdownd_client_free
  unfolding lockdownd_client_free
  client_free-NoRecord = search no_record_rules depth 12

  pub session-NoRecord :
      (info : DeviceInfo) → Preserves (HasNoRecord dir udid) (stored_session env info)
  unfolding stored_session
  session-NoRecord info = search (no_record_rules, has_record-NoRecord, host_id-NoRecord) depth 12

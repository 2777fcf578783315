-- ===== src/Preflight/Contact/Retried.antt =====
-- The jump back to `retry` is taken once at most (src/preflight.c).
use usbmuxd_win_mce.Base.{
  ℕ, ◌+◌, ◌≡◌, ◌≢◌, bytes_eq, subst, refl, true, Option, none, some, List, ◌++◌, codes, ℤ, neg,
  is_zero, arith, Option-cases, Bool-cases, inl, inr, bytes_eq_refl,
}
use usbmuxd_win_mce.State.{World, DeviceInfo}
use usbmuxd_win_mce.State.Monad.{done, pure, maybe}
use usbmuxd_win_mce.State.Monad.Runs.{>>=-eq-done, >>-eq-done}
use usbmuxd_win_mce.Env.{Env}
use usbmuxd_win_mce.Env.Lockdown.{
  LockdownError, success, invalid_host_id, ssl_error, password_protected, other,
}
use usbmuxd_win_mce.Conf.Paths.{drop_trailing, file_in, config_get_config_dir}
use usbmuxd_win_mce.Conf.Records.{remove_file, record_path, config_remove_device_record}
use usbmuxd_win_mce.Preflight.Contact.NoRecord.{
  HasNoRecord, client_new-NoRecord, client_free-NoRecord, session-NoRecord, tick-NoRecord,
}
use usbmuxd_win_mce.Client.Broadcast.{client_device_add}
use usbmuxd_win_mce.Preflight.Lockdown.{lockdownd_client_new, lockdownd_client_free}
use usbmuxd_win_mce.Preflight.Contact.{
  Contact, leaves, stored_session, after_session, with_type, attempt, contact,
}

module _ (env : Env)
    (errno : (call : ℕ) (path : List ℕ) (e : ℕ) → env.remove_error call path ≡ some e → e ≢ 0) where
  removed_file :
      (path : List ℕ) (w w' : World)
      → remove_file env path w ≡ done 0 w'
      → (w'.config_dir ≡ w.config_dir) × (w'.files path ≡ none) × ((w.files path ≡ none) → ⊥)
  unfolding remove_file
  removed_file path w w' e = elim (Option-cases (env.remove_error w.calls path)) [
    | inl fine ↦ ground (arith, bytes_eq_refl path)
    | inr (n, failed) ↦ absurd (ground (arith, errno w.calls path n failed))
  ]

  record_path_lem :
      (udid path : List ℕ) (w w' : World)
      → record_path env udid w ≡ done path w'
      → (dir : List ℕ) × (w'.config_dir ≡ some dir)
        × (path ≡ file_in dir udid)
        × (w'.files ≡ w.files)
        × ((known : List ℕ) → w.config_dir ≡ some known → known ≡ dir)
  unfolding config_get_config_dir
  record_path_lem udid path w w' e = elim (Option-cases w.config_dir) [
    | inl unknown ↦ (
      drop_trailing (codes "/var/lib" ++ codes "/" ++ codes "lockdown"),
      ground arith,
      ground arith,
      ground arith,
      λ known k. absurd (ground arith),
    )
    | inr (dir, k) ↦ (dir, ground arith, ground arith, ground arith, λ known l. ground arith)
  ]

  removed_record :
      (udid : List ℕ) (res : ℤ) (w w' : World)
      → config_remove_device_record env udid w ≡ done res w'
      → is_zero res ≡ true
      → ((dir : List ℕ) × HasNoRecord dir udid w') × ((dir : List ℕ) → HasNoRecord dir udid w → ⊥)
  unfolding config_remove_device_record
  removed_record udid res w w' e z =
      let (path, v, e₁, e₂) = >>=-eq-done (record_path env udid) _ e in
      let (n, u, e₃, e₄) = >>=-eq-done (remove_file env path) (λ n. pure (neg n)) e₂ in
      let (dir, known, place, same, only) = record_path_lem udid path w v e₁ in
      let gone = removed_file path v u (ground arith) in
      (
        (dir, record { known = ground arith; absent = ground arith }),
        λ other h. let at = only other h.known in gone.2 (ground arith),
      )

  -- What an attempt did that asks for another one.
  after_session-none :
      (info : DeviceInfo) (lerr : LockdownError) (w w' : World)
      → after_session env info lerr w ≡ done none w'
      → ((dir : List ℕ) × HasNoRecord dir info.serial w')
        × ((dir : List ℕ) → HasNoRecord dir info.serial w → ⊥)
  unfolding after_session
  after_session-none info success w w' e =
      let (v, e₁, e₂) = >>-eq-done (client_device_add env info) _ e in absurd (ground arith)
  after_session-none info ssl_error w w' e =
      let (res, v, e₁, e₂) = >>=-eq-done (config_remove_device_record env info.serial) _ e in
      elim (Bool-cases (is_zero res)) [
        | inl took ↦
            let (u, e₃, e₄) =
              >>-eq-done lockdownd_client_free (pure {A = Option Contact} none) {w = v} {w'' = w'}
                {b = none} (ground arith) in
            let (gone, was) = removed_record info.serial res w v e₁ took in
            let (dir, h) = gone in
            (
              (
                dir,
                subst (HasNoRecord dir info.serial) (ground arith)
                    ((client_free-NoRecord env dir info.serial).at tt v u e₃ h),
              ),
              was,
            )
        | inr kept ↦ absurd (ground arith)
      ]
  after_session-none info invalid_host_id w w' e = absurd (ground arith)
  after_session-none info password_protected w w' e = absurd (ground arith)
  after_session-none info other w w' e = absurd (ground arith)

  with_type-none :
      (info : DeviceInfo) (type : List ℕ) (w w' : World)
      → with_type env info type w ≡ done none w'
      → ((dir : List ℕ) × HasNoRecord dir info.serial w')
        × ((dir : List ℕ) → HasNoRecord dir info.serial w → ⊥)
  unfolding with_type
  with_type-none info type w w' e =
      elim (Bool-cases (bytes_eq type (codes "com.apple.mobile.lockdown"))) [
        | inl plain ↦
            let (lerr, v, e₁, e₂) =
              >>=-eq-done (stored_session env info) (after_session env info) {w = w} {w'' = w'}
                {b = none} (ground arith) in
            let (gone, was) = after_session-none info lerr v w' e₂ in
            (gone, λ dir h. was dir ((session-NoRecord env dir info.serial info).at lerr w v e₁ h))
        | inr restore ↦
            let (v, e₁, e₂) =
              >>-eq-done (client_device_add env info) (pure {A = Option Contact} (some leaves))
                {w = w} {w'' = w'} {b = none} (ground arith) in
            absurd (ground arith)
      ]

  attempt-none :
      (info : DeviceInfo) (w w' : World)
      → attempt env info w ≡ done none w'
      → ((dir : List ℕ) × HasNoRecord dir info.serial w')
        × ((dir : List ℕ) → HasNoRecord dir info.serial w → ⊥)
  unfolding attempt
  attempt-none info w w' e =
      let (opened, v, e₁, e₂) = >>=-eq-done (lockdownd_client_new env) _ e in
      elim (Option-cases (env.lockdown.query_type v.calls)) [
        | inl untyped ↦ absurd (ground arith)
        | inr (type, typed) ↦ elim (Bool-cases opened) [
          | inl there ↦
              let u = record v { calls = v.calls + 1 } in
              let (gone, was) = with_type-none info type u w' (ground arith) in
              (
                gone,
                λ dir h. was dir (
                    (tick-NoRecord dir info.serial).at v.calls v u refl
                      ((client_new-NoRecord env dir info.serial).at opened w v e₁ h)),
              )
          | inr unreached ↦ absurd (ground arith)
        ]
      ]

  no_third : (info : DeviceInfo) (w w' : World) → contact env info 2 w ≢ done none w'
  unfolding contact
  no_third info w w' e =
      let (first, v, e₁, e₂) = >>=-eq-done (attempt env info) _ e in
      elim (Option-cases first) [
        | inl again ↦
            let (second, u, e₃, e₄) =
              >>=-eq-done (attempt env info)
                (λ made. maybe made (contact env info 0) (λ c. pure (some c))) {w = v} {w'' = w'}
                {b = none} (ground arith) in
            elim (Option-cases second) [
              | inl more ↦
                  let (gone, was) = attempt-none info w v (ground arith) in
                  let (dir, h) = gone in (attempt-none info v u (ground arith)).1 dir h
              | inr (c, made) ↦ ground arith
            ]
        | inr (c, made) ↦ ground arith
      ]

  -- Whatever lockdownd answers and whatever is on disk, two attempts suffice: the worker has made its
  -- contact or given up, and does not jump back for a third one, if remove sets errno where it fails.
  pub contact_lem :
      (info : DeviceInfo) (made : Option Contact) (w w' : World)
      → contact env info 2 w ≡ done made w'
      → (c : Contact) × (made ≡ some c)
  contact_lem info none w w' e = absurd (no_third info w w' e)
  contact_lem info (some c) w w' e = (c, refl)

-- ===== src/Conf/Records/Stored.antt =====
-- A record that was stored is read back, and one that was removed is gone (src/conf.c).
use usbmuxd_win_mce.Base.{
  ℕ, ◌+◌, ◌≡◌, ◌⊎◌, inl, inr, refl, subst, Bool, true, false, none, some, List, ℤ, pos, neg, arith,
  bytes_eq_refl, if◌then◌else◌, Option-cases,
}
use usbmuxd_win_mce.State.{World}
use usbmuxd_win_mce.State.Monad.{M, pure, ◌>>=◌, done}
use usbmuxd_win_mce.State.Monad.Runs.{>>=-eq-done}
use usbmuxd_win_mce.Env.{Env}
use usbmuxd_win_mce.Conf.Paths.{
  file_in, is_valid_udid, config_get_config_dir, config_create_config_dir,
}
use usbmuxd_win_mce.Conf.Records.{
  config_set_device_record, config_get_device_record, store_record, remove_file, write_plist,
  is_dict,
}

module _ (env : Env) (dir : List ℕ) (there : (call : ℕ) → env.stat_ok call dir ≡ true) where
  create_there :
      (w : World)
      → w.config_dir ≡ some dir
      → config_create_config_dir env w ≡ done (pos 0) (record w { calls = w.calls + 1 })
  unfolding config_create_config_dir config_get_config_dir
  create_there w h = ground (arith, there w.calls)

  get_record_lem :
      (udid : List ℕ) (w : World)
      → w.config_dir ≡ some dir
      → config_get_device_record env udid w
        ≡ done (w.files (file_in dir udid)) (record w { calls = w.calls + 1 })
  unfolding config_get_device_record config_get_config_dir
  get_record_lem udid w h = ground (arith, create_there w h)

  remove_file_keeps :
      (path : List ℕ) (r : ℕ) (w w' : World)
      → remove_file env path w ≡ done r w'
      → (w'.config_dir ≡ w.config_dir) × (((r ≡ 0) × (w'.files path ≡ none)) ⊎ (w'.files ≡ w.files))
  unfolding remove_file
  remove_file_keeps path r w w' e = ground (arith, bytes_eq_refl path)

  write_plist_stores :
      (path : List ℕ) (plist : ℕ) (w w' : World)
      → write_plist env path plist w ≡ done true w'
      → (w'.config_dir ≡ w.config_dir) × (w'.files path ≡ env.plist.to_xml plist)
  unfolding write_plist
  write_plist_stores path plist w w' e = ground (arith, bytes_eq_refl path)

  store_record_lem :
      (udid : List ℕ) (plist : ℕ) (w w' : World)
      → w.config_dir ≡ some dir
      → store_record env udid plist w ≡ done (pos 0) w'
      → (w'.config_dir ≡ some dir) × (w'.files (file_in dir udid) ≡ env.plist.to_xml plist)
  unfolding store_record config_get_config_dir
  store_record_lem udid plist w w' h e =
      let (r, w₁, e₁, k) = >>=-eq-done (remove_file env path) after_remove opened in
      let (s, w₂, e₂, l) = >>=-eq-done (write_plist env path plist) after_write k in
      let kept = remove_file_keeps path r (record w { calls = w.calls + 1 }) w₁ e₁ in
      let end = write_end s w₂ w' l in
      let wrote =
        write_plist_stores path plist w₁ w₂
          (subst (λ b. write_plist env path plist w₁ ≡ done b w₂) end.0 e₂) in
      ground (arith, end.1, kept.0, wrote)
    where
      path : List ℕ
      path = file_in dir udid

      after_write : Bool → M ℤ
      after_write s = pure (if s then pos 0 else neg 2)

      after_remove : ℕ → M ℤ
      after_remove _ = write_plist env path plist >>= after_write

      opened :
          (remove_file env path >>= after_remove) (record w { calls = w.calls + 1 })
          ≡ done (pos 0) w'
      opened = ground (arith, create_there w h)

      write_end :
          (s : Bool) (v v' : World) → after_write s v ≡ done (pos 0) v' → (s ≡ true) × (v' ≡ v)
      write_end true v v' e = (refl, ground arith)
      write_end false v v' e = cc

  set_cases :
      (udid record_data : List ℕ) (w w' : World)
      → config_set_device_record env udid record_data w ≡ done (pos 0) w'
      → (plist : ℕ) × (env.plist.from_memory record_data ≡ some plist)
        × (is_dict (env.plist.get_node_type plist) ≡ true)
        × (is_valid_udid udid ≡ true)
        × (store_record env udid plist w ≡ done (pos 0) w')
  unfolding config_set_device_record
  set_cases udid record_data w w' e = elim (Option-cases (env.plist.from_memory record_data)) [
    | inl bad ↦ absurd (ground arith)
    | inr (plist, f) ↦ (plist, f, ground arith, ground arith, ground arith)
  ]

  -- Where the configuration directory is known and exists, a pairing record that was stored with
  -- success was for a plain udid and a dictionary, and reading the record of that udid gives the
  -- dictionary in XML.
  pub record_round_trip :
      (udid record_data : List ℕ) (w w' : World)
      → w.config_dir ≡ some dir
      → config_set_device_record env udid record_data w ≡ done (pos 0) w'
      → (plist : ℕ) × (env.plist.from_memory record_data ≡ some plist)
        × (is_dict (env.plist.get_node_type plist) ≡ true)
        × (is_valid_udid udid ≡ true)
        × (config_get_device_record env udid w'
            ≡ done (env.plist.to_xml plist) (record w' { calls = w'.calls + 1 }))
  record_round_trip udid record_data w w' h e =
      let (plist, f, d, v, k) = set_cases udid record_data w w' e in
      let stored = store_record_lem udid plist w w' h k in
      (plist, f, d, v, ground (arith, get_record_lem udid w' stored.0, stored.1))

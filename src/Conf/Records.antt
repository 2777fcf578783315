-- ===== src/Conf/Records.antt =====
-- Pairing records and the system BUID on disk (src/conf.c).
pub mod Stored
use usbmuxd_win_mce.Base.{
  ℕ, zero, suc, ◌+◌, Bool, true, false, not, ◌&&◌, ◌||◌, Option, none, some, List, [], ◌∷◌, ◌++◌, ℤ,
  pos, neg, negsuc, is_neg, String, ◌==◌, ltb, if◌then◌else◌, codes, length, bytes_eq,
}
use usbmuxd_win_mce.State.{World}
use usbmuxd_win_mce.State.Monad.{M, pure, maybe, ◌>>=◌, ◌>>◌, skip, get, modify, tick, deref}
use usbmuxd_win_mce.Env.{Env, PlistType, plist_dict, plist_string}
use usbmuxd_win_mce.Conf.Uuid.{config_generate_uuid}
use usbmuxd_win_mce.Conf.Paths.{
  config_get_config_dir, config_create_config_dir, file_in, is_valid_udid,
}

abbrev pub einval : ℕ
einval = 22

abbrev pub enoent : ℕ
enoent = 2

abbrev pub is_dict : PlistType → Bool
is_dict plist_dict = true
is_dict _ = false

abbrev pub is_string : PlistType → Bool
is_string plist_string = true
is_string _ = false

abbrev pub put_file :
    (List ℕ → Option (List ℕ)) → List ℕ → Option (List ℕ) → List ℕ → Option (List ℕ)
put_file files path v q = if bytes_eq path q then v else files q

module _ (env : Env) where
  -- remove: 0, or the errno.
  unfoldable pub remove_file : List ℕ → M ℕ
  remove_file path = do
    call ← tick
    files ← get (λ w. w.files)
    maybe (env.remove_error call path)
        (maybe (files path) (pure enoent)
          (λ _. do modify (λ w. record w { files = put_file w.files path none }); pure 0))
        pure

  -- plist_write_to_file in XML; false is an error.
  unfoldable pub write_plist : List ℕ → ℕ → M Bool
  write_plist path plist = do
    call ← tick
    maybe (env.write_error call path)
        (maybe (env.plist.to_xml plist) (pure false) (λ xml. do
          modify (λ w. record w { files = put_file w.files path (some xml) })
          pure true))
        (λ _. pure false)

  unfoldable pub read_plist : List ℕ → M (Option ℕ)
  read_plist path = do
    files ← get (λ w. w.files)
    pure (elim (files path) [ none ↦ none | some bytes ↦ env.plist.from_memory bytes ])

  abbrev pub record_path : List ℕ → M (List ℕ)
  record_path udid = do dir ← config_get_config_dir; pure (file_in dir udid)

  abbrev without_key : ℕ → String → ℕ
  without_key config key = elim (env.plist.dict_get_item config key) [
    | none ↦ config
    | some _ ↦ env.plist.dict_remove_item config key
  ]

  unfoldable pub internal_set_value : List ℕ → String → ℕ → M Bool
  internal_set_value config_file key value = do
    config ← read_plist config_file
    maybe config (write_plist config_file (env.plist.dict_set_item env.plist.new_dict key value))
        (λ c. do
          _ ← remove_file config_file
          write_plist config_file (env.plist.dict_set_item (without_key c key) key value))

  unfoldable pub config_set_value : String → ℕ → M ℤ
  config_set_value key value = do
    res ← config_create_config_dir env
    if is_neg res then pure (neg 1) else (do
      path ← record_path (codes "SystemConfiguration")
      stored ← internal_set_value path key value
      pure (if stored then pos 1 else pos 0))

  unfoldable pub internal_get_value : List ℕ → String → M (Option ℕ)
  internal_get_value config_file key = do
    config ← read_plist config_file
    pure (elim config [ none ↦ none | some c ↦ env.plist.dict_get_item c key ])

  abbrev pub config_get_value : String → M (Option ℕ)
  config_get_value key = do
    path ← record_path (codes "SystemConfiguration")
    internal_get_value path key

  abbrev pub config_set_system_buid : List ℕ → M ℤ
  config_set_system_buid system_buid =
      config_set_value "SystemBUID" (env.plist.new_string system_buid)

  -- The text of a string node; anything else gives no text.
  abbrev pub string_of : Option ℕ → Option (List ℕ)
  string_of none = none
  string_of (some v) =
      if is_string (env.plist.get_node_type v) then env.plist.get_string_val v else none

  -- A BUID that is not on disk is made up and stored; a store that fails is only logged.
  unfoldable pub config_get_system_buid : M (List ℕ)
  config_get_system_buid = do
    value ← config_get_value "SystemBUID"
    maybe (string_of value)
        (do
          call ← tick
          let buid = config_generate_uuid env call
          _ ← config_set_system_buid buid
          pure buid)
        pure

  unfoldable pub config_has_device_record : List ℕ → M ℤ
  config_has_device_record udid = do
    res ← config_create_config_dir env
    if is_neg res then pure (neg 1) else (do
      path ← record_path udid
      files ← get (λ w. w.files)
      pure (elim (files path) [ none ↦ pos 0 | some _ ↦ pos 1 ]))

  -- The record goes to disk under the udid, which must be plain.
  unfoldable pub store_record : List ℕ → ℕ → M ℤ
  store_record udid plist = do
    res ← config_create_config_dir env
    if is_neg res then pure (neg 1) else (do
      path ← record_path udid
      _ ← remove_file path
      stored ← write_plist path plist
      pure (if stored then pos 0 else neg enoent))

  unfoldable pub config_set_device_record : List ℕ → List ℕ → M ℤ
  config_set_device_record udid record_data =
      if ltb (length record_data) 8 || not (is_valid_udid udid)
      then pure (neg einval)
      else maybe (env.plist.from_memory record_data) (pure (neg einval)) λ plist.
        if is_dict (env.plist.get_node_type plist)
        then store_record udid plist
        else pure (neg einval)

  -- `none` where the code leaves the data NULL.
  unfoldable pub config_get_device_record : List ℕ → M (Option (List ℕ))
  config_get_device_record udid = do
    res ← config_create_config_dir env
    if is_neg res
        then pure none
        else (do path ← record_path udid; files ← get (λ w. w.files); pure (files path))

  unfoldable pub config_remove_device_record : List ℕ → M ℤ
  config_remove_device_record udid = do path ← record_path udid; e ← remove_file path; pure (neg e)

  unfoldable pub config_device_record_get_host_id : List ℕ → M (Option (List ℕ))
  config_device_record_get_host_id udid = do
    path ← record_path udid
    value ← internal_get_value path "HostID"
    pure (string_of value)

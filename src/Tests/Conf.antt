-- ===== src/Tests/Conf.antt =====
-- Pairing records.
use usbmuxd_win_mce.Base.{
  ℕ, ◌+◌, ◌≤◌, ◌≡◌, List, ◌++◌, refl, true, false, some, [], ◌∷◌, pos, contains, codes, length,
  replicate,
}
use usbmuxd_win_mce.State.Monad.{done}
use usbmuxd_win_mce.Env.{Env, mkdir_done, mkdir_failed}
use usbmuxd_win_mce.Conf.Uuid.{config_generate_uuid}
use usbmuxd_win_mce.Conf.Uuid.Format.{config_generate_uuid-HasForm, HasForm}
use usbmuxd_win_mce.Conf.Paths.{
  is_valid_udid, dir_sep, mkdir_with_parents, config_get_config_dir, config_create_config_dir,
}
use usbmuxd_win_mce.Conf.Paths.Safe.{is_valid_udid_lem, mkdir_with_parents_stops}
use usbmuxd_win_mce.Conf.Records.{
  config_set_device_record, config_get_device_record, is_dict, store_record, remove_file,
  write_plist,
}
use usbmuxd_win_mce.Conf.Records.Stored.{record_round_trip}
use usbmuxd_win_mce.Conf.Utf16.{config_utf16_to_utf8}
use usbmuxd_win_mce.Conf.Utf16.Decoded.{config_utf16_to_utf8_lem, decode}
use usbmuxd_win_mce.Tests.Sample.{sample_env, sample_plist, sample_world, after}

config_generate_uuid-HasForm_example :
    (length (config_generate_uuid sample_env 0) ≡ 36)
    × HasForm 0 (config_generate_uuid sample_env 0)
config_generate_uuid-HasForm_example = config_generate_uuid-HasForm sample_env 0

is_valid_udid_lem_example :
    (contains dir_sep (codes "00008030-001A") ≡ false)
    × (contains b'.' (codes "00008030-001A") ≡ false)
unfolding is_valid_udid
is_valid_udid_lem_example = is_valid_udid_lem (codes "00008030-001A") refl

-- A directory whose parent is missing too.
abbrev no_parent : Env
no_parent = record sample_env {
  mkdir = λ call p. elim p [ [] ↦ mkdir_done | _ ∷ _ ↦ mkdir_failed ];
}

mkdir_with_parents_stops_example :
    mkdir_with_parents no_parent 2 (codes "ab") sample_world
    ≡ done (pos 0) (record sample_world { calls = 2; made = [] ∷ [] })
mkdir_with_parents_stops_example =
    mkdir_with_parents_stops no_parent 0 (codes "ab") sample_world refl refl

record_round_trip_example :
    (plist : ℕ) × (sample_plist.from_memory (replicate 8 0) ≡ some plist)
    × (is_dict (sample_plist.get_node_type plist) ≡ true)
    × (is_valid_udid (codes "0-A") ≡ true)
    × (config_get_device_record sample_env
          (codes "0-A")
          (after (config_set_device_record sample_env (codes "0-A") (replicate 8 0) sample_world))
        ≡ done
            (sample_plist.to_xml plist)
            (record (after
              (config_set_device_record sample_env (codes "0-A") (replicate 8 0) sample_world)) {
                calls =
                    (after (
                      config_set_device_record sample_env
                        (codes "0-A")
                        (replicate 8 0)
                        sample_world)).calls
                    + 1;
              }))
unfolding config_set_device_record store_record remove_file write_plist config_create_config_dir
    config_get_config_dir is_valid_udid
record_round_trip_example =
    record_round_trip sample_env (b'c' ∷ []) (λ call. refl) (codes "0-A") (replicate 8 0)
      sample_world _ refl refl

-- C:\Ü and the euro sign.
config_utf16_to_utf8_lem_example :
    (text : List ℕ) × (config_utf16_to_utf8 (some (67 ∷ 58 ∷ 92 ∷ 0xdc ∷ 0x20ac ∷ []))
      ≡ some (record { outbuf = text ++ (0 ∷ []); items_read = 5; items_written = length text }))
    × (decode 0 0 text ≡ some (67 ∷ 58 ∷ 92 ∷ 0xdc ∷ 0x20ac ∷ []))
    × (length (text ++ (0 ∷ [])) ≤ 18)
config_utf16_to_utf8_lem_example = config_utf16_to_utf8_lem 67 (58 ∷ 92 ∷ 0xdc ∷ 0x20ac ∷ []) refl

-- ===== src/Client/Command/Leaves.antt =====
-- What a request reads or stores outside of the clients: the list of devices, the start of a
-- connection (src/device.c) and the pairing records (src/conf.c).
use usbmuxd_win_mce.Base.{ℕ, ◌+◌, zero, suc, Bool, List, [], ◌∷◌, String, arith}
use usbmuxd_win_mce.State.{MuxConnection, MuxDevice}
use usbmuxd_win_mce.Env.{Env}
use usbmuxd_win_mce.Conf.Paths.{config_get_config_dir, mkdir_with_parents, config_create_config_dir}
use usbmuxd_win_mce.Conf.Records.{
  remove_file, write_plist, read_plist, record_path, internal_set_value, config_set_value,
  internal_get_value, config_get_system_buid, store_record, config_set_device_record,
  config_get_device_record, config_remove_device_record,
}
use usbmuxd_win_mce.Client.Keeps.Leaves.{Leaves, leaves_rules}
use usbmuxd_win_mce.Device.Packet.{send_segment}
use usbmuxd_win_mce.Device.Lookup.{first_device, load_conns, get_mux_device_for_id}
use usbmuxd_win_mce.Device.Info.{list_from, device_get_list}
use usbmuxd_win_mce.Device.Connect.{find_sport, open_connection, device_start_connect}
use usbmuxd_win_mce.Device.Teardown.Untouched.{first_device-Untouched, send_segment-Untouched}

list_from-Leaves : (hidden : Bool) (l : List ℕ) → Leaves (list_from hidden l)
unfolding list_from
list_from-Leaves hidden [] = search leaves_rules
list_from-Leaves hidden (p ∷ ps) =
    let rest = list_from-Leaves hidden ps in search leaves_rules depth 12

pub device_get_list-Leaves : (hidden : Bool) → Leaves (device_get_list hidden)
unfolding device_get_list
device_get_list-Leaves hidden = search (leaves_rules, list_from-Leaves)

load_conns-Leaves : (l : List ℕ) → Leaves (load_conns l)
unfolding load_conns
load_conns-Leaves [] = search leaves_rules
load_conns-Leaves (p ∷ ps) = let rest = load_conns-Leaves ps in search leaves_rules

first_device-Leaves : (test : MuxDevice → Bool) (l : List ℕ) → Leaves (first_device test l)
first_device-Leaves test l = record { at = first_device-Untouched test l }

find-Leaves : (device_id : ℕ) → Leaves (get_mux_device_for_id device_id)
unfolding get_mux_device_for_id
find-Leaves device_id = search (leaves_rules, first_device-Leaves)

find_sport-Leaves : (dev : ℕ) → Leaves (find_sport dev)
unfolding find_sport
find_sport-Leaves dev = search (leaves_rules, load_conns-Leaves) depth 12

module _ (env : Env) where
  read_plist-Leaves : (path : List ℕ) → Leaves (read_plist env path)
  unfolding read_plist
  read_plist-Leaves path = search leaves_rules

  segment-Leaves :
      (c : MuxConnection) (flags : ℕ) (payload : List ℕ) → Leaves (send_segment env c flags payload)
  segment-Leaves c flags payload = record { at = send_segment-Untouched env c flags payload }

  open_connection-Leaves :
      (dev sport dport client : ℕ) → Leaves (open_connection env dev sport dport client)
  unfolding open_connection
  open_connection-Leaves dev sport dport client = search (leaves_rules, segment-Leaves) depth 16

  pub device_start_connect-Leaves :
      (device_id dport client : ℕ) → Leaves (device_start_connect env device_id dport client)
  unfolding device_start_connect
  device_start_connect-Leaves device_id dport client =
      search (leaves_rules, find-Leaves, find_sport-Leaves, open_connection-Leaves) depth 12

  mkdir-Leaves : (n : ℕ) (dir : List ℕ) → Leaves (mkdir_with_parents env n dir)
  unfolding mkdir_with_parents
  mkdir-Leaves zero dir = search leaves_rules
  mkdir-Leaves (suc n) dir = record {
    at = λ r w w' e.
        ground
          (arith, (mkdir-Leaves n (env.dirname dir)).at r (record w { calls = w.calls + 1 }) w');
  }

  config_dir-Leaves : Leaves config_get_config_dir
  unfolding config_get_config_dir
  config_dir-Leaves = search leaves_rules depth 8

  create_dir-Leaves : Leaves (config_create_config_dir env)
  unfolding config_create_config_dir
  create_dir-Leaves = search (leaves_rules, config_dir-Leaves, mkdir-Leaves) depth 8

  record_path-Leaves : (udid : List ℕ) → Leaves (record_path env udid)
  record_path-Leaves udid = search (leaves_rules, config_dir-Leaves)

  remove_file-Leaves : (path : List ℕ) → Leaves (remove_file env path)
  unfolding remove_file
  remove_file-Leaves path = search leaves_rules depth 12

  write_plist-Leaves : (path : List ℕ) (plist : ℕ) → Leaves (write_plist env path plist)
  unfolding write_plist
  write_plist-Leaves path plist = search leaves_rules depth 12

  set_value-Leaves :
      (path : List ℕ) (key : String) (value : ℕ) → Leaves (internal_set_value env path key value)
  unfolding internal_set_value
  set_value-Leaves path key value =
      search (leaves_rules, read_plist-Leaves, remove_file-Leaves, write_plist-Leaves) depth 8

  config_set_value-Leaves : (key : String) (value : ℕ) → Leaves (config_set_value env key value)
  unfolding config_set_value
  config_set_value-Leaves key value =
      search (leaves_rules, create_dir-Leaves, record_path-Leaves, set_value-Leaves) depth 8

  get_value-Leaves : (path : List ℕ) (key : String) → Leaves (internal_get_value env path key)
  unfolding internal_get_value
  get_value-Leaves path key = search (leaves_rules, read_plist-Leaves)

  pub config_get_system_buid-Leaves : Leaves (config_get_system_buid env)
  unfolding config_get_system_buid
  config_get_system_buid-Leaves =
      search (leaves_rules, record_path-Leaves, get_value-Leaves, config_set_value-Leaves) depth 8

  store_record-Leaves : (udid : List ℕ) (plist : ℕ) → Leaves (store_record env udid plist)
  unfolding store_record
  store_record-Leaves udid plist =
      search
        (
          leaves_rules, create_dir-Leaves, record_path-Leaves, remove_file-Leaves,
          write_plist-Leaves,
        )
        depth 8

  pub config_set_device_record-Leaves :
      (udid record_data : List ℕ) → Leaves (config_set_device_record env udid record_data)
  unfolding config_set_device_record
  config_set_device_record-Leaves udid record_data = search (leaves_rules, store_record-Leaves)

  pub config_get_device_record-Leaves : (udid : List ℕ) → Leaves (config_get_device_record env udid)
  unfolding config_get_device_record
  config_get_device_record-Leaves udid =
      search (leaves_rules, create_dir-Leaves, record_path-Leaves) depth 8

  pub config_remove_device_record-Leaves :
      (udid : List ℕ) → Leaves (config_remove_device_record env udid)
  unfolding config_remove_device_record
  config_remove_device_record-Leaves udid =
      search (leaves_rules, record_path-Leaves, remove_file-Leaves)

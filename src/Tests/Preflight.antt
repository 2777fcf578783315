-- ===== src/Tests/Preflight.antt =====
-- Workers.
use usbmuxd_win_mce.Base.{
  ◌≡◌, refl, true, false, none, some, List, [], ◌∷◌, codes, ◌==◌, if◌then◌else◌,
}
use usbmuxd_win_mce.State.{World, DeviceInfo, CbData}
use usbmuxd_win_mce.Env.{Env, PlistLib, plist_string}
use usbmuxd_win_mce.Env.Lockdown.{LockdownLib, ssl_error, other}
use usbmuxd_win_mce.Conf.Paths.{config_get_config_dir, config_create_config_dir}
use usbmuxd_win_mce.Conf.Records.{
  remove_file, read_plist, internal_get_value, config_has_device_record,
  config_device_record_get_host_id, config_remove_device_record, config_get_system_buid,
  config_set_value, internal_set_value, write_plist,
}
use usbmuxd_win_mce.Conf.Uuid.{config_generate_uuid}
use usbmuxd_win_mce.Client.Output.{
  send_device_add, output_buffer_add_message, reserve, usbmuxd_header,
}
use usbmuxd_win_mce.Client.Broadcast.{client_device_add, to_listeners}
use usbmuxd_win_mce.Device.Lookup.{get_mux_device_for_id}
use usbmuxd_win_mce.Device.Info.{device_set_visible, device_set_preflight_cb_data}
use usbmuxd_win_mce.Preflight.Lockdown.{
  lockdownd_client_new, lockdownd_client_free, lockdownd_pair, lockdownd_set_untrusted_host_buid,
  np_callback,
}
use usbmuxd_win_mce.Preflight.Contact.{
  Contact, in_touch, stored_session, after_session, with_type, attempt, contact,
}
use usbmuxd_win_mce.Preflight.Contact.Retried.{contact_lem}
use usbmuxd_win_mce.Preflight.Product.{product_version, device_class, version_major, asks_for_trust}
use usbmuxd_win_mce.Preflight.Worker.{
  ended, waits, with_trust_dialog, observe, paired_now, preflight_worker_handle_device_add,
}
use usbmuxd_win_mce.Preflight.Worker.Shown.{is_shown, with_trust_dialog_shows}
use usbmuxd_win_mce.Preflight.Wait.{
  Incident, notified, removed, slept, np_client_free, wake, on_incidents, life,
}
use usbmuxd_win_mce.Preflight.Wait.Freed.{life_frees}
use usbmuxd_win_mce.Preflight.Wait.Ended.{ends, on_incidents_lem}
use usbmuxd_win_mce.Tests.Sample.{sample_env, sample_plist, sample_lockdown, sample_world, after}

-- The second version of a device that is told from others by its key.
abbrev iphone_plist : PlistLib
iphone_plist = record sample_plist {
  get_node_type = λ n. plist_string;
  get_string_val = λ n. if n == 1 then some (codes "16.4") else some (codes "iPhone");
}

-- A stored pair record is not accepted, and the device asks its user.
abbrev distrusting : LockdownLib
distrusting = record sample_lockdown {
  start_session = λ call host_id. ssl_error;
  get_value = λ call key. some (some (if call == 12 then 1 else 2));
  pair = λ call. other;
}

abbrev iphone_env : Env
iphone_env = record sample_env { plist = iphone_plist; lockdown = distrusting }

abbrev iphone : DeviceInfo
iphone = record { id = 1; serial = codes "0-A"; location = 0; pid = 4776; speed = 480 }

-- The record is on disk.
abbrev with_record : World
with_record = record sample_world { files = λ p. some (1 ∷ []) }

contact_lem_example : (c : Contact) × (some (in_touch false) ≡ some c)
unfolding contact attempt stored_session config_has_device_record config_create_config_dir
    config_get_config_dir config_device_record_get_host_id internal_get_value read_plist
    config_remove_device_record remove_file lockdownd_client_new lockdownd_client_free
contact_lem_example =
    contact_lem iphone_env (λ call path e h. cc) iphone (some (in_touch false)) with_record
      (after (contact iphone_env iphone 2 with_record)) refl

abbrev incidents : List Incident
incidents =
    slept
    ∷ notified (codes "com.apple.mobile.lockdown.request_host_buid")
    ∷ slept
    ∷ removed
    ∷ slept
    ∷ []

life_frees_example : (after (life iphone_env iphone incidents with_record)).preflight.lockdowns ≡ 0
unfolding life contact attempt with_type stored_session after_session config_has_device_record
    config_create_config_dir config_get_config_dir config_device_record_get_host_id
    internal_get_value read_plist config_remove_device_record remove_file lockdownd_client_new
    lockdownd_client_free lockdownd_pair lockdownd_set_untrusted_host_buid config_get_system_buid
    product_version device_class version_major asks_for_trust with_trust_dialog observe paired_now
    preflight_worker_handle_device_add client_device_add to_listeners device_set_visible
    send_device_add output_buffer_add_message reserve usbmuxd_header device_set_preflight_cb_data
    get_mux_device_for_id np_callback wake np_client_free
life_frees_example =
    life_frees iphone_env iphone incidents ended with_record
      (after (life iphone_env iphone incidents with_record)) refl

abbrev waiting : CbData
waiting = record { np = true; is_device_connected = true; is_finished = false }

abbrev waiting_world : World
waiting_world = record sample_world {
  preflight = record sample_world.preflight {
    callbacks = λ p. if p == 5 then some waiting else none;
    proxies = 1;
  };
}

on_incidents_lem_example : ended ≡ (if ends true (removed ∷ slept ∷ []) then ended else waits 5)
unfolding on_incidents wake np_client_free device_set_preflight_cb_data get_mux_device_for_id
on_incidents_lem_example =
    on_incidents_lem iphone_env iphone 5 (removed ∷ slept ∷ []) waiting ended waiting_world
      (after (on_incidents iphone_env iphone 5 (removed ∷ slept ∷ []) waiting_world)) refl refl

-- The device that is being set up, and a client of lockdownd.
abbrev hidden : DeviceInfo
hidden = record iphone { id = 2 }

abbrev connected_world : World
connected_world = record sample_world {
  preflight = record sample_world.preflight { lockdowns = 1 };
}

abbrev asked_world : World
asked_world = after (with_trust_dialog iphone_env hidden false connected_world)

with_trust_dialog_shows_example : is_shown 2 asked_world.devices asked_world.device_list ≡ true
unfolding lockdownd_client_free lockdownd_pair lockdownd_set_untrusted_host_buid
    config_get_system_buid config_get_config_dir read_plist with_trust_dialog observe paired_now
    client_device_add to_listeners device_set_visible send_device_add output_buffer_add_message
    reserve usbmuxd_header device_set_preflight_cb_data get_mux_device_for_id internal_get_value
    config_create_config_dir config_set_value internal_set_value write_plist config_generate_uuid
with_trust_dialog_shows_example =
    with_trust_dialog_shows iphone_env hidden false (waits 6) connected_world asked_world refl

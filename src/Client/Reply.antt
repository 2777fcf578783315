-- ===== src/Client/Reply.antt =====
-- Replies to the requests of a client (src/client.c).
use usbmuxd_win_mce.Base.{
  ℕ, Bool, true, false, Option, none, some, List, [], ◌∷◌, ℤ, pos, neg, is_neg, String,
  if◌then◌else◌, codes, length, decimal,
}
use usbmuxd_win_mce.State.{ClientState, DeviceInfo}
use usbmuxd_win_mce.State.Monad.{M, pure, maybe, ◌>>=◌, ◌>>◌, get, load_client, store_client}
use usbmuxd_win_mce.Env.{Env}
use usbmuxd_win_mce.Conf.Records.{
  is_dict, is_string, config_get_system_buid, config_get_device_record, einval, enoent,
}
use usbmuxd_win_mce.Client.Output.{
  send_plist, send_result, send_device_add, create_device_attached_plist,
}
use usbmuxd_win_mce.Client.Socket.{is_listen}
use usbmuxd_win_mce.Device.Info.{device_get_list}

module _ (env : Env) where
  open env.plist use {
    new_dict, new_array, new_string, new_uint, new_bool, new_data, dict_set_item, array_append_item,
    dict_get_item, dict_copy_item, get_node_type, get_string_val, get_uint_val,
  }

  unfoldable pub device_array : ℕ → List DeviceInfo → ℕ
  device_array acc [] = acc
  device_array acc (dev ∷ devs) =
      device_array (array_append_item acc (create_device_attached_plist env dev)) devs

  unfoldable pub send_device_list : ℕ → ℕ → M ℤ
  unfolding device_array
  send_device_list client tag = do
    devs ← device_get_list false
    send_plist env client tag (dict_set_item new_dict "DeviceList" (device_array new_array devs))

  abbrev info_item : Option ℕ → String → Option ℕ
  info_item none key = none
  info_item (some info) key = dict_get_item info key

  abbrev progname_of : Option ℕ → List ℕ
  progname_of info = elim (info_item info "ProgName") [
    | none ↦ codes "unknown"
    | some n ↦ elim (get_string_val n) [ none ↦ codes "unknown" | some s ↦ s ]
  ]

  abbrev version_of : Option ℕ → ℕ
  version_of info = elim (info_item info "kLibUSBMuxVersion") [ none ↦ 0 | some n ↦ get_uint_val n ]

  -- `number` is that of the client that asks.
  abbrev id_string : ℕ → List ℕ → List ℕ
  id_string number progname = decimal 10 number (b'-' ∷ progname)

  abbrev with_bundle : ℕ → Option ℕ → ℕ
  with_bundle l none = l
  with_bundle l (some info) = dict_copy_item l info "BundleID"

  unfoldable pub listener_plist : ℕ → Option ℕ → ℕ
  listener_plist number info =
      dict_set_item
        (dict_set_item
          (dict_set_item
            (dict_set_item (with_bundle (dict_set_item new_dict "Blacklisted" (new_bool 0)) info)
              "ConnType" (new_uint 0))
            "ID String" (new_string (id_string number (progname_of info))))
          "ProgName" (new_string (progname_of info)))
        "kLibUSBMuxVersion" (new_uint (version_of info))

  unfoldable pub listener_array : ℕ → ℕ → List ℕ → M ℕ
  unfolding listener_plist
  listener_array number acc [] = pure acc
  listener_array number acc (p ∷ ps) = do
    lc ← load_client p
    listener_array number
        (if is_listen lc.state then array_append_item acc (listener_plist number lc.info) else acc)
        ps

  unfoldable pub send_listener_list : ℕ → ℕ → M ℤ
  unfolding listener_array
  send_listener_list client tag = do
    c ← load_client client
    l ← get (λ w. w.client_list)
    listeners ← listener_array c.number new_array l
    send_plist env client tag (dict_set_item new_dict "ListenerList" listeners)

  unfoldable pub send_system_buid : ℕ → ℕ → M ℤ
  send_system_buid client tag = do
    buid ← config_get_system_buid env
    send_plist env client tag (dict_set_item new_dict "BUID" (new_string buid))

  unfoldable pub send_pair_record : ℕ → ℕ → Option (List ℕ) → M ℤ
  send_pair_record client tag none = send_result env client tag einval
  send_pair_record client tag (some record_id) = do
    found ← config_get_device_record env record_id
    maybe found (send_result env client tag enoent) λ bytes.
        send_plist env client tag (dict_set_item new_dict "PairRecordData" (new_data bytes))

  -- Every device is announced; a message that cannot be queued ends the request.
  unfoldable pub announce : ℕ → List DeviceInfo → M Bool
  announce client [] = pure true
  announce client (dev ∷ devs) = do
    res ← send_device_add env client dev
    if is_neg res then pure false else announce client devs

  unfoldable pub start_listen : ℕ → M ℤ
  unfolding announce
  start_listen client = do
    c ← load_client client
    store_client client (record c { state = ClientState.listen })
    devs ← device_get_list false
    all ← announce client devs
    pure (if all then pos (length devs) else neg 1)

  unfoldable pub plist_dict_get_string_val : ℕ → String → Option (List ℕ)
  plist_dict_get_string_val dict key =
      if is_dict (get_node_type dict)
      then elim (dict_get_item dict key) [
        | none ↦ none
        | some item ↦ if is_string (get_node_type item) then get_string_val item else none
      ]
      else none

  unfoldable pub client_info : ℕ → ℕ
  client_info dict =
      dict_copy_item
        (dict_copy_item
          (dict_copy_item (dict_copy_item new_dict dict "BundleID") dict "ClientVersionString") dict
          "ProgName")
        dict "kLibUSBMuxVersion"

  unfoldable pub update_client_info : ℕ → ℕ → M (Unit {0})
  unfolding client_info
  update_client_info client dict = do
    c ← load_client client
    store_client client (record c { info = some (client_info dict) })

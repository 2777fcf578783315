-- ===== src/Client/Command.antt =====
-- The requests of a client: `handle_command` of src/client.c.
pub mod Leaves
pub mod Sound
use usbmuxd_win_mce.Base.{
  ℕ, ◌+◌, ◌-◌, ◌*◌, ◌/◌, ◌%◌, ◌^◌, Bool, true, false, ◌&&◌, ◌||◌, Option, none, some, List, [], ◌∷◌,
  ℤ, pos, neg, is_neg, neg_part, ◌==◌, ltb, if◌then◌else◌, codes, take, drop, bytes_eq, be16_at,
  le32_at,
}
use usbmuxd_win_mce.State.{ClientState, DeviceInfo}
use usbmuxd_win_mce.State.Monad.{M, pure, maybe, ◌>>=◌, ◌>>◌, when, load_client, store_client}
use usbmuxd_win_mce.Env.{Env, PlistType, plist_uint, plist_data}
use usbmuxd_win_mce.Conf.Records.{
  is_string, config_set_device_record, config_remove_device_record, einval,
}
use usbmuxd_win_mce.Client.Output.{
  send_result, message_plist, message_listen, message_connect, result_ok, result_badcommand,
  result_baddev, result_badversion, usbmuxd_header_size,
}
use usbmuxd_win_mce.Client.Broadcast.{client_device_paired}
use usbmuxd_win_mce.Client.Reply.{
  send_device_list, send_listener_list, send_system_buid, send_pair_record, start_listen,
  plist_dict_get_string_val, update_client_info,
}
use usbmuxd_win_mce.Device.Info.{device_get_list}
use usbmuxd_win_mce.Device.Connect.{device_start_connect}
use usbmuxd_win_mce.Device.Teardown.{client_close}

abbrev pub is_command : ClientState → Bool
is_command ClientState.command = true
is_command _ = false

abbrev pub is_uint : PlistType → Bool
is_uint plist_uint = true
is_uint _ = false

abbrev pub is_data : PlistType → Bool
is_data plist_data = true
is_data _ = false

-- ntohs
abbrev pub swap16 : ℕ → ℕ
swap16 n = n % 256 * 256 + n / 256 % 256

-- Is the device with this id and serial number in the list?
unfoldable pub has_device : ℕ → List ℕ → List DeviceInfo → Bool
has_device dev_id record_id [] = false
has_device dev_id record_id (d ∷ ds) =
    ((d.id == dev_id) && bytes_eq d.serial record_id) || has_device dev_id record_id ds

-- The requests of a plist by their names; `unknown` is any other text.
pub data Request : Type 0 where
  listen connect list_devices list_listeners read_buid read_pair_record : Request
  save_pair_record delete_pair_record unknown : Request

unfoldable pub request_of : List ℕ → Request
request_of m =
    if bytes_eq m (codes "Listen")
    then listen
    else if bytes_eq m (codes "Connect")
    then connect
    else if bytes_eq m (codes "ListDevices")
    then list_devices
    else if bytes_eq m (codes "ListListeners")
    then list_listeners
    else if bytes_eq m (codes "ReadBUID")
    then read_buid
    else if bytes_eq m (codes "ReadPairRecord")
    then read_pair_record
    else if bytes_eq m (codes "SavePairRecord")
    then save_pair_record
    else if bytes_eq m (codes "DeletePairRecord")
    then delete_pair_record
    else unknown

module _ (env : Env) where
  open env.plist use {
    dict_get_item, get_node_type, get_string_val, get_uint_val, get_data_val, from_xml,
  }

  -- `if (send_result(...) < 0) return -1; return 0;`
  abbrev pub answer : ℕ → ℕ → ℕ → M ℤ
  answer client tag result = do
    sent ← send_result env client tag result
    pure (if is_neg sent then neg 1 else pos 0)

  abbrev checked : M ℤ → M ℤ
  checked m = do res ← m; pure (if is_neg res then neg 1 else pos 0)

  unfoldable pub do_listen : ℕ → ℕ → M ℤ
  do_listen client tag = do
    sent ← send_result env client tag 0
    if is_neg sent then pure (neg 1) else start_listen env client

  -- The connect request: an error of `device_start_connect` is answered at once, else the answer
  -- waits for the device.
  unfoldable pub do_connect : ℕ → ℕ → ℕ → ℕ → M ℤ
  do_connect client tag device_id port = do
    res ← device_start_connect env device_id port client
    if is_neg res then answer client tag (neg_part res) else (do
      c ← load_client client
      store_client client (record c {
        connect_tag = tag;
        connect_device = device_id;
        state = ClientState.connecting1;
      })
      pure (pos 0))

  unfoldable pub plist_connect : ℕ → ℕ → ℕ → M ℤ
  plist_connect client tag dict =
      maybe (dict_get_item dict "DeviceID") (answer client tag result_baddev) λ node.
        maybe (dict_get_item dict "PortNumber") (answer client tag result_badcommand) λ port.
          do_connect client tag (get_uint_val node % 2 ^ 32) (swap16 (get_uint_val port % 2 ^ 16))

  abbrev record_data_of : ℕ → Option (List ℕ)
  record_data_of dict = elim (dict_get_item dict "PairRecordData") [
    | none ↦ none
    | some r ↦ if is_data (get_node_type r) then get_data_val r else none
  ]

  abbrev device_id_of : ℕ → ℕ
  device_id_of dict = elim (dict_get_item dict "DeviceID") [
    | none ↦ 0
    | some n ↦ if is_uint (get_node_type n) then get_uint_val n % 2 ^ 32 else 0
  ]

  -- Clients are told of the pairing if the device named is there.
  unfoldable pub tell_paired : ℕ → List ℕ → M (Unit {0})
  tell_paired dev_id record_id = do
    devs ← device_get_list true
    when (has_device dev_id record_id devs) (client_device_paired env dev_id)

  unfoldable pub save_record : ℕ → List ℕ → List ℕ → M ℕ
  unfolding tell_paired
  save_record dict record_id record_data = do
    res ← config_set_device_record env record_id record_data
    if is_neg res then pure (neg_part res) else (do
      when (ltb 0 (device_id_of dict)) (tell_paired (device_id_of dict) record_id)
      pure result_ok)

  unfoldable pub do_save_pair_record : ℕ → ℕ → ℕ → M ℤ
  unfolding save_record
  do_save_pair_record client tag dict =
      maybe (plist_dict_get_string_val env dict "PairRecordID") (answer client tag einval)
        λ record_id.
          maybe (record_data_of dict) (answer client tag einval)
            λ record_data. do rval ← save_record dict record_id record_data; answer client tag rval

  unfoldable pub do_delete_pair_record : ℕ → ℕ → ℕ → M ℤ
  do_delete_pair_record client tag dict =
      maybe (plist_dict_get_string_val env dict "PairRecordID") (answer client tag einval)
        λ record_id. do
          res ← config_remove_device_record env record_id
          answer client tag (neg_part res)

  unfoldable pub plist_request : ℕ → ℕ → ℕ → Request → M ℤ
  unfolding do_listen do_connect plist_connect do_save_pair_record do_delete_pair_record
  plist_request client tag dict listen = do_listen client tag
  plist_request client tag dict connect = plist_connect client tag dict
  plist_request client tag dict list_devices = checked (send_device_list env client tag)
  plist_request client tag dict list_listeners = checked (send_listener_list env client tag)
  plist_request client tag dict read_buid = checked (send_system_buid env client tag)
  plist_request client tag dict read_pair_record =
      checked (send_pair_record env client tag (plist_dict_get_string_val env dict "PairRecordID"))
  plist_request client tag dict save_pair_record = do_save_pair_record client tag dict
  plist_request client tag dict delete_pair_record = do_delete_pair_record client tag dict
  plist_request client tag dict unknown = answer client tag result_badcommand

  abbrev pub message_of : ℕ → Option (List ℕ)
  message_of dict = elim (dict_get_item dict "MessageType") [
    | none ↦ none
    | some node ↦ if is_string (get_node_type node) then get_string_val node else none
  ]

  unfoldable pub plist_command : ℕ → ℕ → List ℕ → M ℤ
  unfolding request_of
  plist_command client tag payload = do
    c ← load_client client
    store_client client (record c { proto_version = 1 })
    maybe (from_xml payload) (pure (neg 1)) λ dict.
        maybe (message_of dict) (pure (neg 1)) λ message. do
          update_client_info env client dict
          plist_request client tag dict (request_of message)

  -- `msg` is the memory at the message: four header words and the payload.
  unfoldable pub command_by_message : ℕ → List ℕ → M ℤ
  command_by_message client msg =
      let len = le32_at msg 0 in
      let message = le32_at msg 8 in
      let tag = le32_at msg 12 in
      if message == message_plist
      then plist_command client tag
          (take (len - usbmuxd_header_size) (drop usbmuxd_header_size msg))
      else if message == message_listen
      then do_listen client tag
      else if message == message_connect
      then do_connect client tag (le32_at msg 16) (be16_at msg 20)
      else answer client tag result_badcommand

  module _ (fuel : ℕ) where
    unfoldable pub handle_command : ℕ → List ℕ → M ℤ
    handle_command client msg = do
      c ← load_client client
      let version = le32_at msg 4
      let tag = le32_at msg 12
      if is_command c.state
          then (if version == 0 || version == 1
              then command_by_message client msg
              else (do _ ← send_result env client tag result_badversion; pure (pos 0)))
          else (do
            sent ← send_result env client tag result_badcommand
            if is_neg sent then pure (neg 1) else (do client_close env fuel client; pure (neg 1)))

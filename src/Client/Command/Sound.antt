-- ===== src/Client/Command/Sound.antt =====
-- A request of a client keeps the buffers of every client (`handle_command` of src/client.c).
use usbmuxd_win_mce.Base.{
  ℕ, inl, inr, Bool, false, Option, none, some, List, [], ◌∷◌, ℤ, pos, neg, is_neg, length, le32_at,
  ◌==◌, ◌||◌, if◌then◌else◌, arith, Bool-cases, Option-cases,
}
use usbmuxd_win_mce.State.{MuxClient, DeviceInfo, ClientState}
use usbmuxd_win_mce.State.Monad.{M, pure, maybe, ◌>>=◌, ◌>>◌, load_client, store_client}
use usbmuxd_win_mce.Env.{Env}
use usbmuxd_win_mce.Client.Output.{send_plist, send_result, result_badversion, result_badcommand}
use usbmuxd_win_mce.Client.Socket.Sound.{Queues-KeepsSound, send_plist-Queues, send_result-Queues}
use usbmuxd_win_mce.Client.Broadcast.{client_device_paired}
use usbmuxd_win_mce.Client.Broadcast.Sound.{add-Queues, paired-Queues}
use usbmuxd_win_mce.Client.Output.{send_device_add}
use usbmuxd_win_mce.Client.Keeps.{Keeps, keeps_rules}
use usbmuxd_win_mce.Client.Keeps.Leaves.{Leaves, Leaves-get, Leaves-Keeps, leaves_rules}
use usbmuxd_win_mce.Client.Keeps.Serves.{
  Serves, serves_rules, Serves-bind, Serves-pure, Serves-Leaves, Serves-Queues, Serves-update,
  to_listeners-Serves, Ends, Ends-update, Ends-after_update, ends_rules,
}
use usbmuxd_win_mce.Device.Info.{device_get_list}
use usbmuxd_win_mce.Device.Connect.{device_start_connect}
use usbmuxd_win_mce.Client.Reply.{
  send_device_list, listener_array, send_listener_list, send_system_buid, send_pair_record,
  announce, start_listen, update_client_info, client_info,
}
use usbmuxd_win_mce.Device.Teardown.{client_close}
use usbmuxd_win_mce.Device.Teardown.Sound.{client_close-KeepsSound}
use usbmuxd_win_mce.Client.Command.{
  is_command, answer, Request, listen, connect, list_devices, list_listeners, read_buid,
  read_pair_record, save_pair_record, delete_pair_record, unknown, do_listen, do_connect,
  plist_connect, tell_paired, save_record, do_save_pair_record, do_delete_pair_record,
  plist_request, plist_command, command_by_message, handle_command, message_of, request_of,
}
use usbmuxd_win_mce.Client.Command.Leaves.{
  device_get_list-Leaves, device_start_connect-Leaves, config_get_system_buid-Leaves,
  config_set_device_record-Leaves, config_get_device_record-Leaves,
  config_remove_device_record-Leaves,
}

module _ (env : Env) (p : ℕ) where
  plist-Serves : (tag plist : ℕ) → Serves p (send_plist env p tag plist)
  plist-Serves tag plist = Serves-Queues p p _ (send_plist-Queues env p tag plist)

  result-Serves : (tag result : ℕ) → Serves p (send_result env p tag result)
  result-Serves tag result = Serves-Queues p p _ (send_result-Queues env p tag result)

  devices-Serves : (hidden : Bool) → Serves p (device_get_list hidden)
  devices-Serves hidden = Serves-Leaves p _ (device_get_list-Leaves hidden)

  device_list-Serves : (tag : ℕ) → Serves p (send_device_list env p tag)
  unfolding send_device_list
  device_list-Serves tag = search (serves_rules, plist-Serves, devices-Serves)

  listener_array-Leaves : (number acc : ℕ) (l : List ℕ) → Leaves (listener_array env number acc l)
  unfolding listener_array
  listener_array-Leaves number acc [] = search leaves_rules
  listener_array-Leaves number acc (q ∷ qs) =
      let rest = λ (n : ℕ). listener_array-Leaves number n qs in search leaves_rules

  listeners-Serves : (tag : ℕ) → Serves p (send_listener_list env p tag)
  unfolding send_listener_list
  listeners-Serves tag =
      search (serves_rules, plist-Serves, Serves-Leaves, leaves_rules, listener_array-Leaves) depth
        8

  buid-Serves : (tag : ℕ) → Serves p (send_system_buid env p tag)
  unfolding send_system_buid
  buid-Serves tag =
      search (serves_rules, plist-Serves, Serves-Leaves, config_get_system_buid-Leaves)

  pair_record-Serves : (tag : ℕ) (o : Option (List ℕ)) → Serves p (send_pair_record env p tag o)
  unfolding send_pair_record
  pair_record-Serves tag none = search (result-Serves)
  pair_record-Serves tag (some record_id) =
      search
        (serves_rules, result-Serves, plist-Serves, Serves-Leaves, config_get_device_record-Leaves)

  add-Serves : (dev : DeviceInfo) → Serves p (send_device_add env p dev)
  add-Serves dev = Serves-Queues p p _ (add-Queues env dev p)

  announce-Serves : (l : List DeviceInfo) → Serves p (announce env p l)
  unfolding announce
  announce-Serves [] = search serves_rules
  announce-Serves (dev ∷ devs) =
      let rest = announce-Serves devs in search (serves_rules, add-Serves)

  add-Keeps : (dev : DeviceInfo) → Keeps (send_device_add env p dev)
  add-Keeps dev = record { at = Queues-KeepsSound p _ (add-Queues env dev p) }

  announce-Keeps : (l : List DeviceInfo) → Keeps (announce env p l)
  unfolding announce
  announce-Keeps [] = search keeps_rules
  announce-Keeps (dev ∷ devs) = let rest = announce-Keeps devs in search (keeps_rules, add-Keeps)

  devices-Keeps : (hidden : Bool) → Keeps (device_get_list hidden)
  devices-Keeps hidden = Leaves-Keeps _ (device_get_list-Leaves hidden)

  start_listen-Ends : Ends p (start_listen env p)
  unfolding start_listen
  start_listen-Ends =
      Ends-update p (λ c. record c { state = ClientState.listen }) (λ _. told)
        (λ c s v. ground arith) (λ c. search (keeps_rules, devices-Keeps, announce-Keeps))
    where
      told : M ℤ
      told = do
        devs ← device_get_list false
        all ← announce env p devs
        pure (if all then pos (length devs) else neg 1)

  do_listen-Ends : (tag : ℕ) → Ends p (do_listen env p tag)
  unfolding do_listen
  do_listen-Ends tag = search (ends_rules, result-Serves, start_listen-Ends)

  answer-Serves : (tag result : ℕ) → Serves p (answer env p tag result)
  answer-Serves tag result = search (serves_rules, result-Serves)

  connecting-Ends :
      (tag device_id : ℕ)
      → Ends p (do
        c ← load_client p
        store_client p (record c {
          connect_tag = tag;
          connect_device = device_id;
          state = ClientState.connecting1;
        })
        pure (pos 0))
  connecting-Ends tag device_id =
      Ends-update p asking (λ _. pure (pos 0)) (λ c s v. ground arith) (λ c. search keeps_rules)
    where
      asking : MuxClient → MuxClient
      asking c = record c {
        connect_tag = tag;
        connect_device = device_id;
        state = ClientState.connecting1;
      }

  start_connect-Serves : (device_id port : ℕ) → Serves p (device_start_connect env device_id port p)
  start_connect-Serves device_id port =
      Serves-Leaves p _ (device_start_connect-Leaves env device_id port p)

  do_connect-Ends : (tag device_id port : ℕ) → Ends p (do_connect env p tag device_id port)
  unfolding do_connect
  do_connect-Ends tag device_id port =
      search (ends_rules, start_connect-Serves, answer-Serves, connecting-Ends)

  plist_connect-Ends : (tag dict : ℕ) → Ends p (plist_connect env p tag dict)
  unfolding plist_connect
  plist_connect-Ends tag dict = search (ends_rules, answer-Serves, do_connect-Ends)

  paired-Serves : (dev_id : ℕ) → Serves p (client_device_paired env dev_id)
  unfolding client_device_paired
  paired-Serves dev_id =
      Serves-bind p _ _ (Serves-Leaves p _ (Leaves-get _))
        (to_listeners-Serves p _ (paired-Queues env dev_id))

  tell_paired-Serves :
      (dev_id : ℕ) (record_id : List ℕ) → Serves p (tell_paired env dev_id record_id)
  unfolding tell_paired
  tell_paired-Serves dev_id record_id = search (serves_rules, devices-Serves, paired-Serves)

  save_record-Serves :
      (dict : ℕ) (record_id record_data : List ℕ)
      → Serves p (save_record env dict record_id record_data)
  unfolding save_record
  save_record-Serves dict record_id record_data =
      search (serves_rules, Serves-Leaves, config_set_device_record-Leaves, tell_paired-Serves)
        depth 8

  do_save-Serves : (tag dict : ℕ) → Serves p (do_save_pair_record env p tag dict)
  unfolding do_save_pair_record
  do_save-Serves tag dict = search (serves_rules, answer-Serves, save_record-Serves)

  do_delete-Serves : (tag dict : ℕ) → Serves p (do_delete_pair_record env p tag dict)
  unfolding do_delete_pair_record
  do_delete-Serves tag dict =
      search (serves_rules, answer-Serves, Serves-Leaves, config_remove_device_record-Leaves)

  plist_request-Ends : (tag dict : ℕ) (q : Request) → Ends p (plist_request env p tag dict q)
  unfolding plist_request
  plist_request-Ends tag dict listen = do_listen-Ends tag
  plist_request-Ends tag dict connect = plist_connect-Ends tag dict
  plist_request-Ends tag dict list_devices = search (ends_rules, device_list-Serves)
  plist_request-Ends tag dict list_listeners = search (ends_rules, listeners-Serves)
  plist_request-Ends tag dict read_buid = search (ends_rules, buid-Serves)
  plist_request-Ends tag dict read_pair_record = search (ends_rules, pair_record-Serves)
  plist_request-Ends tag dict save_pair_record = search (ends_rules, do_save-Serves)
  plist_request-Ends tag dict delete_pair_record = search (ends_rules, do_delete-Serves)
  plist_request-Ends tag dict unknown = search (ends_rules, answer-Serves)

  info-Serves : (dict : ℕ) → Serves p (update_client_info env p dict)
  unfolding update_client_info
  info-Serves dict = record {
    at = λ r w w' v o e.
        (Serves-update p (λ c. record c { info = some (client_info env dict) }) (λ c. pure r)
            (λ c s. s) (λ c s u. ground arith) (λ c. Serves-pure p r)).at
          r w w' v o (ground arith);
  }

  plist_command-Ends : (tag : ℕ) (payload : List ℕ) → Ends p (plist_command env p tag payload)
  unfolding plist_command
  plist_command-Ends tag payload =
      Ends-after_update p (λ c. record c { proto_version = 1 }) (λ _. parsed) (λ c s. s)
        (λ c s v. ground arith) (λ c. search (ends_rules, info-Serves, plist_request-Ends) depth 8)
    where
      parsed : M ℤ
      parsed = maybe (env.plist.from_xml payload) (pure (neg 1)) λ dict.
          maybe (message_of env dict) (pure (neg 1)) λ message. do
            update_client_info env p dict
            plist_request env p tag dict (request_of message)

  command-Ends : (msg : List ℕ) → Ends p (command_by_message env p msg)
  unfolding command_by_message
  command-Ends msg =
      search (ends_rules, plist_command-Ends, do_listen-Ends, do_connect-Ends, answer-Serves)

  result-Keeps : (tag result : ℕ) → Keeps (send_result env p tag result)
  result-Keeps tag result = record {
    at = Queues-KeepsSound p _ (send_result-Queues env p tag result);
  }

  close-Keeps : (fuel : ℕ) → Keeps (client_close env fuel p)
  close-Keeps fuel = record { at = client_close-KeepsSound env fuel p }

  pub handle_command-Keeps : (fuel : ℕ) (msg : List ℕ) → Keeps (handle_command env fuel p msg)
  unfolding handle_command
  handle_command-Keeps fuel msg = record {
    at = λ r w w' v e. elim (Option-cases (w.clients p)) [
      | inl gone ↦ absurd (ground arith)
      | inr (c, there) ↦ elim (Bool-cases (is_command c.state)) [
        | inl waits ↦ (right msg).at r w w' v (λ d here. ground arith) (ground arith)
        | inr busy ↦ (wrong msg).at r w w' v (ground arith)
      ]
    ];
  }
    where
      right :
          (msg : List ℕ)
          → Ends p (
              if le32_at msg 4 == 0 || le32_at msg 4 == 1
              then command_by_message env p msg
              else (do _ ← send_result env p (le32_at msg 12) result_badversion; pure (pos 0)))
      right msg = search (ends_rules, command-Ends, result-Serves)

      wrong :
          (msg : List ℕ)
          → Keeps (do
            sent ← send_result env p (le32_at msg 12) result_badcommand
            if is_neg sent then pure (neg 1) else (do client_close env fuel p; pure (neg 1)))
      wrong msg = search (keeps_rules, result-Keeps, close-Keeps) depth 8

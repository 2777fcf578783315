-- ===== src/Client/Broadcast/Sound.antt =====
-- Telling the listening clients keeps the buffers of every client (src/client.c).
use usbmuxd_win_mce.Base.{
  ℕ, inl, inr, List, [], ◌∷◌, ℤ, arith, ◌==◌, Option-cases, Bool-cases, if◌then◌else◌, le32, Option,
  none, some, true, ◌||◌,
}
use usbmuxd_win_mce.State.{MuxClient, DeviceInfo}
use usbmuxd_win_mce.State.Monad.{M, skip, tick, modify, load_device, store_device, ◌>>=◌}
use usbmuxd_win_mce.State.Monad.Runs.{>>-eq-done, >>=-eq-done}
use usbmuxd_win_mce.Env.{Env}
use usbmuxd_win_mce.Client.Output.{
  send_device_add, send_device_remove, send_device_paired, create_device_attached_plist,
  device_record, device_event_plist, message_device_add, message_device_remove,
  message_device_paired,
}
use usbmuxd_win_mce.Client.Socket.{is_listen}
use usbmuxd_win_mce.Client.Socket.Sound.{
  KeepsSound, Queues, Queues-KeepsSound, >>=-KeepsSound, untouched-KeepsSound, if-KeepsSound,
  send_plist-Queues, add_message-Queues,
}
use usbmuxd_win_mce.Client.Broadcast.{
  preflight_worker_device_add, pid_apple_t2_coprocessor, to_listeners, client_device_add,
  client_device_remove, client_device_paired,
}
use usbmuxd_win_mce.Device.Info.{device_set_visible}
use usbmuxd_win_mce.Device.Lookup.{get_mux_device_for_id, first_device}
use usbmuxd_win_mce.Device.Teardown.Untouched.{
  Untouched, >>=-Untouched, pure-Untouched, load_device-Untouched, store_device-Untouched,
  first_device-Untouched,
}

module _ (send : ℕ → M ℤ) (queues : (p : ℕ) → Queues p (send p)) where
  told_one-KeepsSound :
      (p : ℕ) (c : MuxClient)
      → KeepsSound (if is_listen c.state then (send p >>= λ _. skip) else skip)
  told_one-KeepsSound p c r w w' v e = elim (Bool-cases (is_listen c.state)) [
    | inl hears ↦
        let (a, w₁, e₁, e₂) =
          >>=-eq-done (send p) (λ _. skip) {w = w} {w'' = w'} {b = r} (ground arith) in
        λ q d k alive. Queues-KeepsSound p (send p) (queues p) a w w₁ v e₁ q d (ground arith) alive
    | inr deaf ↦ λ q d k alive. v q d (ground arith) alive
  ]

  to_listeners-KeepsSound : (l : List ℕ) → KeepsSound (to_listeners send l)
  unfolding to_listeners
  to_listeners-KeepsSound [] r w w' v e = λ q d k alive. v q d (ground arith) alive
  to_listeners-KeepsSound (p ∷ ps) r w w' v e = elim (Option-cases (w.clients p)) [
    | inl gone ↦ absurd (ground arith)
    | inr (c, there) ↦
        let (w₁, e₁, e₂) =
          >>-eq-done (if is_listen c.state then (send p >>= λ _. skip) else skip)
            (to_listeners send ps) {w = w} {w'' = w'} {b = r} (ground arith) in
        to_listeners-KeepsSound ps r w₁ w' (told_one-KeepsSound p c tt w w₁ v e₁) e₂
  ]

module _ (env : Env) where
  remove-Queues : (device_id p : ℕ) → Queues p (send_device_remove env p device_id)
  unfolding send_device_remove
  remove-Queues device_id p r w w' e = elim (Option-cases (w.clients p)) [
    | inl gone ↦ absurd (ground arith)
    | inr (c, there) ↦ elim (Bool-cases (c.proto_version == 1)) [
      | inl plain ↦
          send_plist-Queues env p 0 (device_event_plist env "Detached" device_id) r w w'
            (ground arith)
      | inr binary ↦
          add_message-Queues env p 0 message_device_remove (le32 device_id) r w w' (ground arith)
    ]
  ]

  pub paired-Queues : (device_id p : ℕ) → Queues p (send_device_paired env p device_id)
  unfolding send_device_paired
  paired-Queues device_id p r w w' e = elim (Option-cases (w.clients p)) [
    | inl gone ↦ absurd (ground arith)
    | inr (c, there) ↦ elim (Bool-cases (c.proto_version == 1)) [
      | inl plain ↦
          send_plist-Queues env p 0 (device_event_plist env "Paired" device_id) r w w'
            (ground arith)
      | inr binary ↦
          add_message-Queues env p 0 message_device_paired (le32 device_id) r w w' (ground arith)
    ]
  ]

  pub add-Queues : (dev : DeviceInfo) (p : ℕ) → Queues p (send_device_add env p dev)
  unfolding send_device_add
  add-Queues dev p r w w' e = elim (Option-cases (w.clients p)) [
    | inl gone ↦ absurd (ground arith)
    | inr (c, there) ↦ elim (Bool-cases (c.proto_version == 1)) [
      | inl plain ↦
          send_plist-Queues env p 0 (create_device_attached_plist env dev) r w w' (ground arith)
      | inr binary ↦
          add_message-Queues env p 0 message_device_add (device_record env dev) r w w'
            (ground arith)
    ]
  ]

  pub client_device_remove-KeepsSound :
      (device_id : ℕ) → KeepsSound (client_device_remove env device_id)
  unfolding client_device_remove
  client_device_remove-KeepsSound device_id r w w' v e =
      to_listeners-KeepsSound (λ p. send_device_remove env p device_id) (remove-Queues device_id)
        w.client_list r w w' v e

  pub client_device_paired-KeepsSound :
      (device_id : ℕ) → KeepsSound (client_device_paired env device_id)
  unfolding client_device_paired
  client_device_paired-KeepsSound device_id r w w' v e =
      to_listeners-KeepsSound (λ p. send_device_paired env p device_id) (paired-Queues device_id)
        w.client_list r w w' v e

  -- The device that was found, made visible.
  show : Option ℕ → M (Unit {0})
  show found = elim found [
    | none ↦ skip
    | some p ↦ do d ← load_device p; store_device p (record d { visible = true })
  ]

  show-Untouched : (found : Option ℕ) → Untouched (show found)
  unfolding show
  show-Untouched none = pure-Untouched tt
  show-Untouched (some p) =
      >>=-Untouched (load_device p) _ (load_device-Untouched p)
        (λ d. store_device-Untouched p (record d { visible = true }))

  device_set_visible-KeepsSound : (device_id : ℕ) → KeepsSound (device_set_visible device_id)
  unfolding device_set_visible get_mux_device_for_id show
  device_set_visible-KeepsSound device_id =
      untouched-KeepsSound (device_set_visible device_id) λ r w w' e.
        >>=-Untouched (first_device (λ d. d.id == device_id) w.device_list) show
          (first_device-Untouched (λ d. d.id == device_id) w.device_list) show-Untouched r w w' e

  pub client_device_add-KeepsSound : (dev : DeviceInfo) → KeepsSound (client_device_add env dev)
  unfolding client_device_add
  client_device_add-KeepsSound dev =
      >>=-KeepsSound (device_set_visible dev.id) _ (device_set_visible-KeepsSound dev.id)
        (λ _ r w w' v e.
          to_listeners-KeepsSound (λ p. send_device_add env p dev) (add-Queues dev) w.client_list r
            w w' v e)

  -- A device that has become active is announced at once or by its worker.
  pub preflight_worker_device_add-KeepsSound :
      (info : DeviceInfo) → KeepsSound (preflight_worker_device_add env info)
  unfolding preflight_worker_device_add
  preflight_worker_device_add-KeepsSound info =
      if-KeepsSound (info.pid == pid_apple_t2_coprocessor || env.no_preflight) _ _
        (client_device_add-KeepsSound info)
        (if-KeepsSound env.have_libimobiledevice _ _
          (>>=-KeepsSound tick _ (untouched-KeepsSound tick (λ r w w' e. ground arith)) (λ call.
            if-KeepsSound (env.thread_new call) _ _
              (untouched-KeepsSound started (λ r w w' e. ground arith))
              (client_device_add-KeepsSound info)))
          (client_device_add-KeepsSound info))
    where
      started : M (Unit {0})
      started = modify (λ w. record w { workers = info ∷ w.workers })

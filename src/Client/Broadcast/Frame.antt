-- ===== src/Client/Broadcast/Frame.antt =====
-- Who is told of devices (src/client.c).
use usbmuxd_win_mce.Base.{
  ℕ, ◌≡◌, ◌⊎◌, inl, inr, false, some, List, [], ◌∷◌, ℤ, arith, ◌==◌, Option-cases, if◌then◌else◌,
}
use usbmuxd_win_mce.State.{World, MuxClient, DeviceInfo}
use usbmuxd_win_mce.State.Monad.{M, done, skip, ◌>>=◌}
use usbmuxd_win_mce.State.Monad.Runs.{>>-eq-done, Outcome-cases}
use usbmuxd_win_mce.Env.{Env}
use usbmuxd_win_mce.Client.Output.{
  output_buffer_add_message, send_plist, send_device_add, send_device_remove, send_device_paired,
}
use usbmuxd_win_mce.Client.Socket.{is_listen}
use usbmuxd_win_mce.Client.Broadcast.{to_listeners, client_device_remove, client_device_paired}

-- A send that changes no client but its own.
abbrev OwnOnly : (ℕ → M ℤ) → Type 0
OwnOnly send =
    (p q : ℕ) (r : ℤ) (w w' : World)
    → send p w ≡ done r w'
    → (q == p) ≡ false
    → w'.clients q ≡ w.clients q

module _ (send : ℕ → M ℤ) (own : OwnOnly send) (q : ℕ) (c : MuxClient)
    (deaf : is_listen c.state ≡ false) where
  told_one :
      (p : ℕ) (pc : MuxClient) (w w' : World)
      → w.clients q ≡ some c
      → w.clients p ≡ some pc
      → (if is_listen pc.state then (send p >>= λ _. skip) else skip) w ≡ done tt w'
      → w'.clients q ≡ some c
  told_one p pc w w' h k e = elim (Outcome-cases (send p w)) [
    | inl f ↦ ground arith
    | inr (r, v, f) ↦ ground (arith, own p q r w v f)
  ]

  to_listeners_frame :
      (l : List ℕ) (w w' : World)
      → w.clients q ≡ some c
      → to_listeners send l w ≡ done tt w'
      → w'.clients q ≡ some c
  unfolding to_listeners
  to_listeners_frame [] w w' h e = ground arith
  to_listeners_frame (p ∷ ps) w w' h e = elim (Option-cases (w.clients p)) [
    | inl gone ↦ absurd (ground arith)
    | inr (pc, k) ↦
        let (v, e₁, e₂) =
          >>-eq-done (if is_listen pc.state then (send p >>= λ _. skip) else skip)
            (to_listeners send ps) {w = w} {w'' = w'} (ground arith) in
        to_listeners_frame ps v w' (told_one p pc w v h k e₁) e₂
  ]

module _ (env : Env) where
  add_message_own :
      (tag msg : ℕ) (payload : List ℕ)
      → OwnOnly (λ p. output_buffer_add_message env p tag msg payload)
  unfolding output_buffer_add_message
  add_message_own tag msg payload p q r w w' e n = ground arith

  remove_own : (device_id : ℕ) → OwnOnly (λ p. send_device_remove env p device_id)
  unfolding send_device_remove send_plist output_buffer_add_message
  remove_own device_id p q r w w' e n = ground arith

  paired_own : (device_id : ℕ) → OwnOnly (λ p. send_device_paired env p device_id)
  unfolding send_device_paired send_plist output_buffer_add_message
  paired_own device_id p q r w w' e n = ground arith

  add_own : (dev : DeviceInfo) → OwnOnly (λ p. send_device_add env p dev)
  unfolding send_device_add send_plist output_buffer_add_message
  add_own dev p q r w w' e n = ground arith

  -- A client that does not listen is not touched when a device goes or is paired.
  pub not_listening_untouched :
      (device_id q : ℕ) (c : MuxClient) (w w' : World)
      → is_listen c.state ≡ false
      → w.clients q ≡ some c
      → (client_device_remove env device_id w ≡ done tt w')
        ⊎ (client_device_paired env device_id w ≡ done tt w')
      → w'.clients q ≡ some c
  unfolding client_device_remove client_device_paired
  not_listening_untouched device_id q c w w' s h (inl e) =
      to_listeners_frame (λ p. send_device_remove env p device_id) (remove_own device_id) q c s
        w.client_list w w' h e
  not_listening_untouched device_id q c w w' s h (inr e) =
      to_listeners_frame (λ p. send_device_paired env p device_id) (paired_own device_id) q c s
        w.client_list w w' h e

-- ===== src/Preflight/Wait/Ended.antt =====
-- When the wait of a worker ends (src/preflight.c).
use usbmuxd_win_mce.Base.{
  ℕ, ◌≡◌, refl, ◌∙◌, ap, Bool, true, false, not, ◌&&◌, Option, none, some, List, [], ◌∷◌, arith,
  codes, bytes_eq, if◌then◌else◌, Bool-cases, inl, inr,
}
use usbmuxd_win_mce.State.{World, PreflightState, DeviceInfo, CbData}
use usbmuxd_win_mce.State.Monad.{
  M, done, put, pure, tick, modify_preflight, load_callback, ◌>>◌, skip,
}
use usbmuxd_win_mce.State.Monad.Runs.{>>=-eq-done, >>-eq-done}
use usbmuxd_win_mce.State.Monad.Preserves.{Preserves, Preserves-tick, preserves_rules}
use usbmuxd_win_mce.Env.{Env}
use usbmuxd_win_mce.Conf.Records.{config_get_system_buid}
use usbmuxd_win_mce.Device.Info.{device_set_preflight_cb_data}
use usbmuxd_win_mce.Preflight.Quiet.{Quiet, system_buid-Quiet}
use usbmuxd_win_mce.Preflight.Lockdown.{
  lockdownd_client_new, lockdownd_client_free, lockdownd_pair, lockdownd_set_untrusted_host_buid,
  finish, on_request_pair, on_request_host_buid, np_callback,
}
use usbmuxd_win_mce.Preflight.Worker.{Phase, ended, waits}
use usbmuxd_win_mce.Preflight.Wait.{
  is_waiting, np_client_free, end_wait, wake, Incident, notified, removed, slept, on_incident,
  on_incidents,
}

-- The record of the worker is there.
record HasCallback (cb : ℕ) (c : CbData) (w : World) : Type 0 where
  there : w.preflight.callbacks cb ≡ some c

module _ (cb : ℕ) (c : CbData) where
  tick-HasCallback : Preserves (HasCallback cb c) tick
  tick-HasCallback = Preserves-tick (λ w p. record { there = p.there })

  modify-HasCallback :
      (f : PreflightState → PreflightState)
      → ((s : PreflightState) → (f s).callbacks cb ≡ s.callbacks cb)
      → Preserves (HasCallback cb c) (modify_preflight f)
  modify-HasCallback f h = record {
    at = λ r w w' e p. let there = p.there in record { there = ground (arith, h w.preflight) };
  }

  Quiet-HasCallback : {A : Type 0} (m : M A) → Quiet m → Preserves (HasCallback cb c) m
  Quiet-HasCallback m h = record {
    at = λ r w w' e p.
        let there = p.there in
        let same = ((h w.preflight).at r w w' e (record { same = refl })).same in
        record { there = ground arith };
  }

same_callback : (o : Option CbData) → o ≡ o
same_callback o = refl

ruleset callback_rules = (preserves_rules, tick-HasCallback, modify-HasCallback, same_callback)

-- The notifications that end the wait: the connection to the proxy is gone, or the user trusts this
-- computer.
abbrev pub is_final : List ℕ → Bool
is_final [] = true
is_final (c ∷ cs) = bytes_eq (c ∷ cs) (codes "com.apple.mobile.lockdown.request_pair")

module _ (env : Env) (cb : ℕ) (c : CbData) where
  new-HasCallback : Preserves (HasCallback cb c) (lockdownd_client_new env)
  unfolding lockdownd_client_new
  new-HasCallback = search callback_rules depth 8

  free-HasCallback : Preserves (HasCallback cb c) lockdownd_client_free
  unfolding lockdownd_client_free
  free-HasCallback = search callback_rules depth 8

  pair-HasCallback : Preserves (HasCallback cb c) (lockdownd_pair env)
  unfolding lockdownd_pair
  pair-HasCallback = search callback_rules depth 8

  buid-HasCallback : Preserves (HasCallback cb c) (config_get_system_buid env)
  buid-HasCallback =
      Quiet-HasCallback cb c (config_get_system_buid env) (λ s. system_buid-Quiet s env)

  host_buid-HasCallback : Preserves (HasCallback cb c) (on_request_host_buid env)
  unfolding on_request_host_buid lockdownd_set_untrusted_host_buid
  host_buid-HasCallback =
      search (callback_rules, new-HasCallback, free-HasCallback, buid-HasCallback) depth 12

  finish_lem :
      (w w' : World)
      → HasCallback cb c w
      → finish cb w ≡ done tt w'
      → HasCallback cb (record c { is_finished = true }) w'
  finish_lem w w' h e = let there = h.there in record { there = ground arith }

  request_pair_lem :
      (w w' : World)
      → HasCallback cb c w
      → on_request_pair env cb w ≡ done tt w'
      → HasCallback cb (record c { is_finished = true }) w'
  unfolding on_request_pair
  request_pair_lem w w' h e =
      let (opened, v, e₁, e₂) = >>=-eq-done (lockdownd_client_new env) _ e in
      let k = new-HasCallback.at opened w v e₁ h in
      elim (Bool-cases opened) [
        | inl there ↦
            let (lerr, u, e₃, e₄) =
              >>=-eq-done (lockdownd_pair env) (λ _. lockdownd_client_free >> finish cb) {w = v}
                {w'' = w'} {b = tt} (ground arith) in
            let (t, e₅, e₆) = >>-eq-done lockdownd_client_free (finish cb) e₄ in
            finish_lem t w' (free-HasCallback.at tt u t e₅ (pair-HasCallback.at lerr v u e₃ k)) e₆
        | inr gone ↦ finish_lem v w' k (ground arith)
      ]

  other-HasCallback :
      (x : ℕ) (xs : List ℕ)
      → Preserves (HasCallback cb c) (
          if bytes_eq (x ∷ xs) (codes "com.apple.mobile.lockdown.request_host_buid")
          then on_request_host_buid env
          else skip)
  other-HasCallback x xs = search (callback_rules, host_buid-HasCallback)

  -- The record after a notification: the worker still waits if it did and the notification is not final.
  np_callback_lem :
      (notification : List ℕ) (w w' : World)
      → HasCallback cb c w
      → np_callback env notification cb w ≡ done tt w'
      → (c' : CbData) × HasCallback cb c' w'
        × (is_waiting c' ≡ (is_waiting c && not (is_final notification)))
  unfolding np_callback
  np_callback_lem [] w w' h e =
      let there = h.there in
      (record c { np = false }, record { there = ground arith }, ground arith)
  np_callback_lem (x ∷ xs) w w' h e = elim (Bool-cases (is_final (x ∷ xs))) [
    | inl final ↦
        (record c { is_finished = true }, request_pair_lem w w' h (ground arith), ground arith)
    | inr early ↦ (c, (other-HasCallback x xs).at tt w w' (ground arith) h, ground arith)
  ]

-- Does the worker return, of which it is known whether it still waits?
abbrev pub ends : Bool → List Incident → Bool
ends waiting [] = false
ends waiting (notified notification ∷ xs) = ends (waiting && not (is_final notification)) xs
ends waiting (removed ∷ xs) = ends false xs
ends waiting (slept ∷ xs) = let rest = ends true xs in if waiting then rest else true

module _ (env : Env) (info : DeviceInfo) (cb : ℕ) where
  end_wait_lem : (phase : Phase) (w w' : World) → end_wait info cb w ≡ done phase w' → phase ≡ ended
  unfolding end_wait np_client_free
  end_wait_lem phase w w' e =
      let (v, e₁, e₂) = >>-eq-done (device_set_preflight_cb_data info.id none) _ e in ground arith

  wake_waits :
      (c : CbData) (w : World)
      → w.preflight.callbacks cb ≡ some c
      → is_waiting c ≡ true
      → wake info cb w ≡ done (waits cb) w
  unfolding wake
  wake_waits c w h k = ground arith

  wake_over :
      (c : CbData) (p : Phase) (w w' : World)
      → w.preflight.callbacks cb ≡ some c
      → is_waiting c ≡ false
      → wake info cb w ≡ done p w'
      → p ≡ ended
  unfolding wake
  wake_over c p w w' h k e =
      let (d, v, e₁, e₂) = >>=-eq-done (load_callback cb) next {w = w} {w'' = w'} {b = p} e in
      let same : d ≡ c = ground arith in end_wait_lem p v w' (rw (same, k) at e₂)
    where
      next : CbData → M Phase
      next d = if is_waiting d then pure (waits cb) else end_wait info cb

  -- While a worker waits, whatever comes and in whatever order, it returns exactly when it wakes up after
  -- its device was removed, after the connection to the notification proxy was lost, or after the user
  -- was asked to trust this computer and answered; else it waits on.
  pub on_incidents_lem :
      (xs : List Incident) (c : CbData) (phase : Phase) (w w' : World)
      → w.preflight.callbacks cb ≡ some c
      → on_incidents env info cb xs w ≡ done phase w'
      → phase ≡ (if ends (is_waiting c) xs then ended else waits cb)
  unfolding on_incidents on_incident
  on_incidents_lem [] c phase w w' h e = ground arith
  on_incidents_lem (notified notification ∷ xs) c phase w w' h e =
      let (p, v, e₁, e₂) = >>=-eq-done (on_incident env info cb (notified notification)) _ e in
      let (u, e₃, e₄) = >>-eq-done (np_callback env notification cb) (pure (waits cb)) e₁ in
      let (c', k, now) = np_callback_lem env cb c notification w u (record { there = h }) e₃ in
      on_incidents_lem xs c' phase u w' k.there (ground arith)
      ∙ ap (λ b. if ends b xs then ended else waits cb) now
  on_incidents_lem (removed ∷ xs) c phase w w' h e =
      let gone = record c { is_device_connected = false } in
      let s = w.preflight in
      let v = record w { preflight = record s { callbacks = put s.callbacks cb (some gone) } } in
      on_incidents_lem xs gone phase v w' (ground arith) (ground arith)
      ∙ ap (λ b. if ends b xs then ended else waits cb) (ground arith)
  on_incidents_lem (slept ∷ xs) c phase w w' h e = elim (Bool-cases (is_waiting c)) [
    | inl waiting ↦
        on_incidents_lem xs c phase w w' h (ground (arith, wake_waits c w h waiting)) ∙ ground arith
    | inr over ↦
        let (p, v, e₁, e₂) = >>=-eq-done (on_incident env info cb slept) _ e in
        let last = wake_over c p w v h over e₁ in ground arith
  ]

-- ===== src/Preflight/Quiet.antt =====
-- What leaves the workers' state alone: telling the clients (src/client.c, src/device.c) and the
-- configuration (src/conf.c).
use usbmuxd_win_mce.Base.{
  ℕ, ◌+◌, zero, suc, ◌≡◌, ◌∙◌, refl, inl, inr, neg, Bool, true, Option, none, some, List, [], ◌∷◌,
  String, arith,
}
use usbmuxd_win_mce.State.{World, PreflightState, DeviceInfo, MuxDevice}
use usbmuxd_win_mce.State.Monad.{
  M, done, tick, alloc, modify, load_device, store_device, ◌>>=◌, skip, pure,
}
use usbmuxd_win_mce.State.Monad.Preserves.{
  Preserves, Preserves-tick, Preserves-modify, Preserves-bind, preserves_rules,
}
use usbmuxd_win_mce.Env.{Env}
use usbmuxd_win_mce.Preflight.Contact.NoRecord.{made}
use usbmuxd_win_mce.Conf.Paths.{config_get_config_dir, mkdir_with_parents, config_create_config_dir}
use usbmuxd_win_mce.Conf.Records.{
  remove_file, write_plist, read_plist, internal_set_value, config_set_value, internal_get_value,
  config_get_system_buid, config_has_device_record, config_device_record_get_host_id,
  config_remove_device_record,
}
use usbmuxd_win_mce.Client.Output.{
  message_plist, output_buffer_add_message, send_plist, send_device_add,
}
use usbmuxd_win_mce.Client.Broadcast.{to_listeners, client_device_add}
use usbmuxd_win_mce.Device.Lookup.{first_device, get_mux_device_for_id}
use usbmuxd_win_mce.Device.Info.{device_set_visible, device_set_preflight_cb_data}

pub record HasState (s : PreflightState) (w : World) : Type 0 where
  pub same : w.preflight ≡ s

-- The workers' state is afterwards as it was before.
abbrev pub Quiet : {A : Type 0} → M A → Type 0
Quiet m = (s : PreflightState) → Preserves (HasState s) m

module _ (s : PreflightState) where
  pub tick-Quiet : Preserves (HasState s) tick
  tick-Quiet = Preserves-tick (λ w p. record { same = p.same })

  pub alloc-Quiet : Preserves (HasState s) alloc
  alloc-Quiet = record { at = λ r w w' e p. let same = p.same in record { same = ground arith } }

  modify-Quiet :
      (f : World → World)
      → ((w : World) → (f w).preflight ≡ w.preflight)
      → Preserves (HasState s) (modify f)
  modify-Quiet f h = Preserves-modify f (λ w p. record { same = h w ∙ p.same })

  store_device-Quiet : (p : ℕ) (d : MuxDevice) → Preserves (HasState s) (store_device p d)
  store_device-Quiet p d = record {
    at = λ r w w' e h. let same = h.same in record { same = ground arith };
  }

same_state : (x : PreflightState) → x ≡ x
same_state x = refl

ruleset quiet_rules =
    (preserves_rules, tick-Quiet, alloc-Quiet, modify-Quiet, same_state, store_device-Quiet)

module _ (s : PreflightState) where
  first_device-Quiet :
      (test : MuxDevice → Bool) (l : List ℕ) → Preserves (HasState s) (first_device test l)
  unfolding first_device
  first_device-Quiet test [] = search quiet_rules
  first_device-Quiet test (p ∷ ps) =
      let rest = first_device-Quiet test ps in search quiet_rules depth 12

  found-Quiet : (device_id : ℕ) → Preserves (HasState s) (get_mux_device_for_id device_id)
  unfolding get_mux_device_for_id
  found-Quiet device_id = search (quiet_rules, first_device-Quiet)

  on_found :
      (f : ℕ → M (Unit {0}))
      → ((p : ℕ) → Preserves (HasState s) (f p))
      → (found : Option ℕ)
      → Preserves (HasState s) (elim found as (λ _. M (Unit {0})) [ none ↦ skip | some p ↦ f p ])
  on_found f h none = search quiet_rules
  on_found f h (some p) = h p

  visible-Quiet : (device_id : ℕ) → Preserves (HasState s) (device_set_visible device_id)
  unfolding device_set_visible
  visible-Quiet device_id =
      Preserves-bind (get_mux_device_for_id device_id) _ (found-Quiet device_id) λ found.
        on_found (λ p. do d ← load_device p; store_device p (record d { visible = true }))
          (λ p. search quiet_rules depth 8) found

  pub cb_data-Quiet :
      (device_id : ℕ) (cb : Option ℕ)
      → Preserves (HasState s) (device_set_preflight_cb_data device_id cb)
  unfolding device_set_preflight_cb_data
  cb_data-Quiet device_id cb =
      Preserves-bind (get_mux_device_for_id device_id) _ (found-Quiet device_id) λ found.
        on_found (λ p. do d ← load_device p; store_device p (record d { preflight_cb_data = cb }))
          (λ p. search quiet_rules depth 8) found

  module _ (env : Env) where
    add_message-Quiet :
        (client tag msg : ℕ) (payload : List ℕ)
        → Preserves (HasState s) (output_buffer_add_message env client tag msg payload)
    unfolding output_buffer_add_message
    add_message-Quiet client tag msg payload = record {
      at = λ r w w' e p. let same = p.same in record { same = ground arith };
    }

    send_plist-Quiet :
        (client tag plist : ℕ) → Preserves (HasState s) (send_plist env client tag plist)
    unfolding send_plist
    send_plist-Quiet client tag plist =
        elim (env.plist.to_xml plist)
          as (λ o. Preserves (HasState s) (elim o [
            | some xml ↦ output_buffer_add_message env client tag message_plist xml
            | none ↦ pure (neg 1)
          ])) [
            | none ↦ search quiet_rules
            | some xml ↦ add_message-Quiet client tag message_plist xml
          ]

    send_add-Quiet :
        (client : ℕ) (dev : DeviceInfo) → Preserves (HasState s) (send_device_add env client dev)
    unfolding send_device_add
    send_add-Quiet client dev = search (quiet_rules, send_plist-Quiet, add_message-Quiet) depth 12

    told-Quiet :
        (dev : DeviceInfo) (l : List ℕ)
        → Preserves (HasState s) (to_listeners (λ p. send_device_add env p dev) l)
    unfolding to_listeners
    told-Quiet dev [] = search quiet_rules
    told-Quiet dev (p ∷ ps) =
        let rest = told-Quiet dev ps in search (quiet_rules, send_add-Quiet) depth 12

    pub client_device_add-Quiet :
        (dev : DeviceInfo) → Preserves (HasState s) (client_device_add env dev)
    unfolding client_device_add
    client_device_add-Quiet dev = search (quiet_rules, visible-Quiet, told-Quiet) depth 8

    mkdir-Quiet :
        (fuel : ℕ) (path : List ℕ) → Preserves (HasState s) (mkdir_with_parents env fuel path)
    unfolding mkdir_with_parents
    mkdir-Quiet zero path = search quiet_rules
    mkdir-Quiet (suc fuel) path = record {
      at = λ r w w' e p.
          let same = p.same in
          let v = record w { calls = w.calls + 1 } in
          let rest = λ (f : mkdir_with_parents env fuel (env.dirname path) v ≡ done r w').
            (mkdir-Quiet fuel (env.dirname path)).at r v w' f (record { same = same }) in
          elim (made (env.mkdir w.calls path)) [
            | inl fine ↦ record { same = ground arith }
            | inr failed ↦ rest (ground arith)
          ];
    }

    dir-Quiet : Preserves (HasState s) config_get_config_dir
    unfolding config_get_config_dir
    dir-Quiet = search quiet_rules depth 8

    create_dir-Quiet : Preserves (HasState s) (config_create_config_dir env)
    unfolding config_create_config_dir
    create_dir-Quiet = search (quiet_rules, mkdir-Quiet, dir-Quiet) depth 8

    pub has_record-Quiet :
        (udid : List ℕ) → Preserves (HasState s) (config_has_device_record env udid)
    unfolding config_has_device_record
    has_record-Quiet udid = search (quiet_rules, create_dir-Quiet, dir-Quiet) depth 12

    pub host_id-Quiet :
        (udid : List ℕ) → Preserves (HasState s) (config_device_record_get_host_id env udid)
    unfolding config_device_record_get_host_id internal_get_value read_plist
    host_id-Quiet udid = search (quiet_rules, dir-Quiet) depth 12

    remove_file-Quiet : (path : List ℕ) → Preserves (HasState s) (remove_file env path)
    unfolding remove_file
    remove_file-Quiet path = search quiet_rules depth 12

    pub remove_record-Quiet :
        (udid : List ℕ) → Preserves (HasState s) (config_remove_device_record env udid)
    unfolding config_remove_device_record
    remove_record-Quiet udid = search (quiet_rules, remove_file-Quiet, dir-Quiet) depth 12

    write_plist-Quiet :
        (path : List ℕ) (plist : ℕ) → Preserves (HasState s) (write_plist env path plist)
    unfolding write_plist
    write_plist-Quiet path plist = search quiet_rules depth 12

    set_value-Quiet :
        (path : List ℕ) (key : String) (value : ℕ)
        → Preserves (HasState s) (internal_set_value env path key value)
    unfolding internal_set_value read_plist
    set_value-Quiet path key value =
        search (quiet_rules, remove_file-Quiet, write_plist-Quiet) depth 8

    config_set_value-Quiet :
        (key : String) (value : ℕ) → Preserves (HasState s) (config_set_value env key value)
    unfolding config_set_value
    config_set_value-Quiet key value =
        search (quiet_rules, create_dir-Quiet, dir-Quiet, set_value-Quiet) depth 12

    pub system_buid-Quiet : Preserves (HasState s) (config_get_system_buid env)
    unfolding config_get_system_buid internal_get_value read_plist
    system_buid-Quiet = search (quiet_rules, dir-Quiet, config_set_value-Quiet) depth 12

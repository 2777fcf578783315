-- ===== src/Preflight/Worker/Shown.antt =====
-- A device whose user is asked to trust this computer is visible meanwhile (src/preflight.c).
use usbmuxd_win_mce.Base.{
  ℕ, ◌≡◌, refl, neg, Bool, true, false, Option, none, some, List, [], ◌∷◌, ℤ, arith, ◌==◌,
  if◌then◌else◌, Option-cases, Bool-cases, inl, inr,
}
use usbmuxd_win_mce.State.{World, Heap, MuxDevice, DeviceInfo, PreflightState}
use usbmuxd_win_mce.State.Monad.{
  M, done, put, pure, skip, tick, modify_preflight, load_device, store_device, ◌>>=◌, ◌>>◌,
}
use usbmuxd_win_mce.State.Monad.Runs.{>>=-eq-done, >>-eq-done}
use usbmuxd_win_mce.State.Monad.Preserves.{Preserves, Preserves-tick, preserves_rules}
use usbmuxd_win_mce.Env.{Env}
use usbmuxd_win_mce.Client.Output.{
  message_plist, output_buffer_add_message, send_plist, send_device_add,
}
use usbmuxd_win_mce.Client.Broadcast.{to_listeners, client_device_add}
use usbmuxd_win_mce.Device.Lookup.{first_device, get_mux_device_for_id}
use usbmuxd_win_mce.Device.Info.{device_set_visible}
use usbmuxd_win_mce.Preflight.Lockdown.{lockdownd_client_free}
use usbmuxd_win_mce.Preflight.Worker.{Phase, shown, observe, with_trust_dialog}

-- Is the device with the id visible, which the list has first, if it has one?
abbrev pub is_shown : ℕ → Heap MuxDevice → List ℕ → Bool
is_shown id devices [] = true
is_shown id devices (p ∷ ps) =
    let rest = is_shown id devices ps in
    elim (devices p) [ none ↦ false | some d ↦ if d.id == id then d.visible else rest ]

module _ (id found : ℕ) (d : MuxDevice) where
  found-is_shown :
      (l : List ℕ) (w v : World)
      → w.devices found ≡ some d
      → first_device (λ c. c.id == id) l w ≡ done (some found) v
      → is_shown id (put w.devices found (some (record d { visible = true }))) l ≡ true
  unfolding first_device
  found-is_shown [] w v h e = absurd (ground arith)
  found-is_shown (x ∷ xs) w v h e = elim (Option-cases (w.devices x)) [
    | inl gone ↦ absurd (ground arith)
    | inr (c, there) ↦ elim (Bool-cases (c.id == id)) [
      | inl first ↦ ground arith
      | inr later ↦ ground (arith, found-is_shown xs w v h)
    ]
  ]

not_found-is_shown :
    (id : ℕ) (l : List ℕ) (w v : World)
    → first_device (λ c. c.id == id) l w ≡ done none v
    → is_shown id w.devices l ≡ true
unfolding first_device
not_found-is_shown id [] w v e = refl
not_found-is_shown id (x ∷ xs) w v e = elim (Option-cases (w.devices x)) [
  | inl gone ↦ absurd (ground arith)
  | inr (c, there) ↦ ground (arith, not_found-is_shown id xs w v)
]

first_device-same :
    (test : MuxDevice → Bool) (l : List ℕ) (w v : World) (o : Option ℕ)
    → first_device test l w ≡ done o v
    → v ≡ w
unfolding first_device
first_device-same test [] w v o e = ground arith
first_device-same test (x ∷ xs) w v o e = elim (Option-cases (w.devices x)) [
  | inl gone ↦ absurd (ground arith)
  | inr (c, there) ↦ ground (arith, first_device-same test xs w v o)
]

-- The device that was found, made visible.
show : Option ℕ → M (Unit {0})
show o = elim o [
  | none ↦ skip
  | some p ↦ do d ← load_device p; store_device p (record d { visible = true })
]

device_set_visible-is_shown :
    (id : ℕ) (w w' : World)
    → device_set_visible id w ≡ done tt w'
    → is_shown id w'.devices w'.device_list ≡ true
unfolding device_set_visible get_mux_device_for_id show
device_set_visible-is_shown id w w' e =
    let (o, v, e₁, e₂) =
      >>=-eq-done (first_device (λ c. c.id == id) w.device_list) show {w = w} {w'' = w'} {b = tt}
        e in
    let same = first_device-same (λ c. c.id == id) w.device_list w v o e₁ in
    elim (Option-cases o) [
      | inl none_found ↦ ground (arith, not_found-is_shown id w.device_list w v)
      | inr (p, found) ↦ elim (Option-cases (w.devices p)) [
        | inl gone ↦ absurd (ground arith)
        | inr (d, there) ↦ ground (arith, found-is_shown id p d w.device_list w v)
      ]
    ]

-- The device is visible.
record IsShown (id : ℕ) (w : World) : Type 0 where
  visible : is_shown id w.devices w.device_list ≡ true

module _ (id : ℕ) where
  tick-IsShown : Preserves (IsShown id) tick
  tick-IsShown = Preserves-tick (λ w p. record { visible = p.visible })

  modify-IsShown :
      (f : PreflightState → PreflightState) → Preserves (IsShown id) (modify_preflight f)
  modify-IsShown f = record {
    at = λ r w w' e p. let visible = p.visible in record { visible = ground arith };
  }

ruleset shown_rules = (preserves_rules, tick-IsShown, modify-IsShown)

module _ (id : ℕ) (env : Env) where
  add_message-IsShown :
      (client tag msg : ℕ) (payload : List ℕ)
      → Preserves (IsShown id) (output_buffer_add_message env client tag msg payload)
  unfolding output_buffer_add_message
  add_message-IsShown client tag msg payload = record {
    at = λ r w w' e p. let visible = p.visible in record { visible = ground arith };
  }

  send_plist-IsShown :
      (client tag plist : ℕ) → Preserves (IsShown id) (send_plist env client tag plist)
  unfolding send_plist
  send_plist-IsShown client tag plist =
      elim (env.plist.to_xml plist)
        as (λ o. Preserves (IsShown id) (elim o as (λ _. M ℤ) [
          | some xml ↦ output_buffer_add_message env client tag message_plist xml
          | none ↦ pure (neg 1)
        ])) [
          | none ↦ search shown_rules
          | some xml ↦ add_message-IsShown client tag message_plist xml
        ]

  send_add-IsShown :
      (client : ℕ) (dev : DeviceInfo) → Preserves (IsShown id) (send_device_add env client dev)
  unfolding send_device_add
  send_add-IsShown client dev =
      search (shown_rules, send_plist-IsShown, add_message-IsShown) depth 12

  told-IsShown :
      (dev : DeviceInfo) (l : List ℕ)
      → Preserves (IsShown id) (to_listeners (λ p. send_device_add env p dev) l)
  unfolding to_listeners
  told-IsShown dev [] = search shown_rules
  told-IsShown dev (p ∷ ps) =
      let rest = told-IsShown dev ps in search (shown_rules, send_add-IsShown) depth 12

free-IsShown : (id : ℕ) → Preserves (IsShown id) lockdownd_client_free
unfolding lockdownd_client_free
free-IsShown id = search shown_rules depth 8

-- However the program ends, the device is visible then.
record Shows (id : ℕ) {A : Type 0} (m : M A) : Type 0 where
  at : (r : A) (w w' : World) → m w ≡ done r w' → IsShown id w'

module _ (id : ℕ) {B : Type 0} where
  Shows-bind :
      {A : Type 0} (m : M A) (f : A → M B) → ((a : A) → Shows id (f a)) → Shows id (m >>= f)
  Shows-bind m f h = record {
    at = λ r w w' e. let (a, v, e₁, e₂) = >>=-eq-done m f e in (h a).at r v w' e₂;
  }

  Shows-then : (m : M (Unit {0})) (k : M B) → Shows id k → Shows id (m >> k)
  Shows-then m k h = Shows-bind m (λ _. k) (λ _. h)

  Shows-first :
      (m : M (Unit {0})) (k : M B) → Shows id m → Preserves (IsShown id) k → Shows id (m >> k)
  Shows-first m k h p = record {
    at = λ r w w' e.
        let (v, e₁, e₂) = >>-eq-done m k {w = w} {w'' = w'} {b = r} e in
        p.at r v w' e₂ (h.at tt w v e₁);
  }

  Shows-if : (b : Bool) (m n : M B) → Shows id m → Shows id n → Shows id (if b then m else n)
  Shows-if true m n h k = h
  Shows-if false m n h k = k

ruleset shows_rules = (shown_rules, Shows-first, Shows-bind, Shows-then, Shows-if)

module _ (env : Env) (info : DeviceInfo) where
  visible-Shows : Shows info.id (device_set_visible info.id)
  visible-Shows = record {
    at = λ r w w' e. record { visible = device_set_visible-is_shown info.id w w' e };
  }

  add-Shows : Shows info.id (client_device_add env info)
  unfolding client_device_add
  add-Shows =
      Shows-first info.id (device_set_visible info.id) _ visible-Shows
        (search (shown_rules, told-IsShown) depth 8)

  observe-Shows : Shows info.id (observe env info)
  unfolding observe
  observe-Shows = search (shows_rules, add-Shows) depth 16

  shown-Shows : Shows info.id (shown env info)
  shown-Shows = search (shows_rules, add-Shows, free-IsShown) depth 12

  dialog-Shows : (paired : Bool) → Shows info.id (with_trust_dialog env info paired)
  unfolding with_trust_dialog
  dialog-Shows paired = search (shows_rules, shown-Shows, observe-Shows) depth 12

  -- Whether the device is paired already or pairs at once, and whether its notifications can be observed
  -- or not: a device whose user may be asked for trust is visible to the clients when the worker ends or
  -- comes to wait.
  pub with_trust_dialog_shows :
      (paired : Bool) (phase : Phase) (w w' : World)
      → with_trust_dialog env info paired w ≡ done phase w'
      → is_shown info.id w'.devices w'.device_list ≡ true
  with_trust_dialog_shows paired phase w w' e =
      let kept = (dialog-Shows paired).at phase w w' e in kept.visible

-- ===== src/Usb/Configuration/Chosen.antt =====
-- The endpoints that a configuration is chosen for (src/usb.c).
use usbmuxd_win_mce.Base.{
  ℕ, suc, ◌+◌, ◌/◌, ◌%◌, ◌≡◌, ◌≢◌, ◌⊎◌, refl, ap, inl, inr, true, false, none, some, List, [], ◌∷◌,
  ◌++◌, arith, Bool-cases, Option-cases, is_one,
}
use usbmuxd_win_mce.State.{World, UsbDevice}
use usbmuxd_win_mce.State.Monad.{done, put}
use usbmuxd_win_mce.Env.{Env, InterfaceDescriptor, ConfigDescriptor}
use usbmuxd_win_mce.Usb.Configuration.{
  interface_class, interface_subclass, interface_protocol, is_candidate, endpoints_of,
  choose_interface, detach_each, configure, configure_from,
}

-- The two endpoints are all that the interface has, in either order, and data flows from the host
-- through the first of them and to the host through the second, by the highest bit of the address.
pub record HasEndpoints (i : InterfaceDescriptor) (out inward : ℕ) : Type 0 where
  pub both : (i.endpoints ≡ out ∷ inward ∷ []) ⊎ (i.endpoints ≡ inward ∷ out ∷ [])
  pub out_flows_out : out / 128 % 2 ≡ 0
  pub in_flows_in : inward / 128 % 2 ≡ 1

-- The device is `u` with the number and the endpoints of an interface of the list that passes the test.
pub record IsChosen (u u' : UsbDevice) (l : List InterfaceDescriptor) : Type 0 where
  pub taken : InterfaceDescriptor
  pub before : List InterfaceDescriptor
  pub behind : List InterfaceDescriptor
  pub is_there : l ≡ before ++ (taken ∷ behind)
  pub fits :
      (taken.class ≡ interface_class)
      ⊎ ((taken.subclass ≡ interface_subclass) ⊎ (taken.protocol ≡ interface_protocol))
  pub its_endpoints : HasEndpoints taken u'.ep_out u'.ep_in
  pub device : u' ≡ record u { interface = taken.number; ep_out = u'.ep_out; ep_in = u'.ep_in }

endpoints_of_lem :
    (i : InterfaceDescriptor) (out inward : ℕ)
    → endpoints_of i ≡ some (out, inward)
    → HasEndpoints i out inward
unfolding endpoints_of
endpoints_of_lem i out inward e = record {
  both = ground arith;
  out_flows_out = ground arith;
  in_flows_in = ground arith;
}

is_candidate_lem :
    (i : InterfaceDescriptor)
    → is_candidate i ≡ true
    → (i.class ≡ interface_class)
      ⊎ ((i.subclass ≡ interface_subclass) ⊎ (i.protocol ≡ interface_protocol))
unfolding is_candidate
is_candidate_lem i e = ground arith

IsChosen-behind :
    {u u' : UsbDevice} {l : List InterfaceDescriptor} (i : InterfaceDescriptor)
    → IsChosen u u' l
    → IsChosen u u' (i ∷ l)
IsChosen-behind i c = record {
  taken = c.taken;
  before = i ∷ c.before;
  behind = c.behind;
  is_there = ap (λ l. i ∷ l) c.is_there;
  fits = c.fits;
  its_endpoints = c.its_endpoints;
  device = c.device;
}

-- Where an interface is chosen, the device gets the number of one of the configuration's that has the
-- class, the subclass or the protocol of usbmux, and that has exactly two endpoints, an OUT and an IN
-- endpoint in either order; it writes to the OUT endpoint of that interface and reads from its IN
-- endpoint, and is otherwise as it was.
pub choose_interface-IsChosen :
    (u u' : UsbDevice) (l : List InterfaceDescriptor)
    → choose_interface u l ≡ some u'
    → IsChosen u u' l
unfolding choose_interface
choose_interface-IsChosen u u' [] e = absurd (ground arith)
choose_interface-IsChosen u u' (i ∷ is) e = elim (Bool-cases (is_candidate i)) [
  | inl fits ↦ elim (Option-cases (endpoints_of i)) [
    | inl mismatch ↦ IsChosen-behind i (choose_interface-IsChosen u u' is (ground arith))
    | inr ((out, inward), found) ↦
        let ends = endpoints_of_lem i out inward found in
        record {
          taken = i;
          before = [];
          behind = is;
          is_there = refl;
          fits = is_candidate_lem i fits;
          its_endpoints = record {
            both = ground (arith, ends);
            out_flows_out = ground (arith, ends);
            in_flows_in = ground (arith, ends);
          };
          device = ground arith;
        }
  ]
  | inr other ↦ IsChosen-behind i (choose_interface-IsChosen u u' is (ground arith))
]

module _ (env : Env) where
  -- Detaching drivers changes nothing that the program keeps.
  detach_each-calls :
      (handle : ℕ) (l : List InterfaceDescriptor) (w : World)
      → (n : ℕ) × (detach_each env handle l w ≡ done tt (record w { calls = n }))
  unfolding detach_each
  detach_each-calls handle [] w = (w.calls, refl)
  detach_each-calls handle (i ∷ is) w =
      let (n, once) = detach_each-calls handle is (record w { calls = w.calls + 1 }) in
      let (m, twice) = detach_each-calls handle is (record w { calls = w.calls + 1 + 1 }) in
      elim (Bool-cases (is_one (env.libusb.kernel_driver_active w.calls handle i.number))) [
        | inl active ↦ (m, rw active twice)
        | inr idle ↦ (n, rw idle once)
      ]

  -- Where libusb cannot set a configuration that has an interface, and the next one is the present
  -- configuration and has no interface that fits, the configuration of the device ends with success all
  -- the same: the device keeps the interface and the endpoints of the configuration that was not set.
  pub configure_from_stale :
      (dev usbdev handle current k : ℕ) (u u' : UsbDevice) (first next : ConfigDescriptor)
      (w : World)
      → ((call : ℕ) → env.libusb.get_config_descriptor call dev (suc (suc k)) ≡ some first)
      → ((call : ℕ) → env.libusb.get_config_descriptor call dev (suc k) ≡ some next)
      → w.usb usbdev ≡ some u
      → choose_interface u first.interfaces ≡ some u'
      → first.configuration_value ≢ current
      → ((call : ℕ) → env.libusb.set_configuration call handle (suc (suc k)) ≡ false)
      → choose_interface u' next.interfaces ≡ none
      → next.configuration_value ≡ current
      → current ≢ 0
      → (w' : World) × (configure_from env dev usbdev handle current false (suc (suc k)) w
          ≡ done true w')
        × (w'.usb usbdev ≡ some u')
  unfolding configure_from configure
  configure_from_stale dev usbdev handle current k u u' first next w c d h chosen other unset n v
        z =
      let (m, e) =
        detach_each-calls handle first.interfaces
          (record w { calls = w.calls + 1; usb = put w.usb usbdev (some u') }) in
      (
        record w { calls = m + 1 + 1; usb = put w.usb usbdev (some u') },
        ground (arith, c w.calls, d (m + 1), e, unset m),
        ground arith,
      )

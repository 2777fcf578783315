-- ===== src/Usb/Configuration.antt =====
-- The configuration, the interface and the endpoints of a device: `guess_mode` and
-- `set_valid_configuration` of src/usb.c.
pub mod Chosen
use usbmuxd_win_mce.Base.{
  ℕ, zero, suc, ◌/◌, ◌%◌, Bool, true, false, not, ◌&&◌, ◌||◌, Option, none, some, List, [], ◌∷◌,
  is_one, ltb, leb, ◌==◌, if◌then◌else◌,
}
use usbmuxd_win_mce.State.{UsbDevice}
use usbmuxd_win_mce.State.Monad.{M, pure, ◌>>=◌, ◌>>◌, skip, maybe, load_usb, store_usb, tick}
use usbmuxd_win_mce.Env.{Env, InterfaceDescriptor, ConfigDescriptor}

abbrev pub interface_class : ℕ
interface_class = 255

abbrev pub interface_subclass : ℕ
interface_subclass = 254

abbrev pub interface_protocol : ℕ
interface_protocol = 2

-- The two directions of an endpoint's address.
abbrev pub is_in : ℕ → Bool
is_in endpoint = endpoint / 128 % 2 == 1

abbrev pub is_out : ℕ → Bool
is_out endpoint = endpoint / 128 % 2 == 0

abbrev pub is_valeria : InterfaceDescriptor → Bool
is_valeria i = (i.class == interface_class) && (i.subclass == 42) && (i.protocol == 255)

abbrev pub is_cdc_ncm : InterfaceDescriptor → Bool
is_cdc_ncm i = (i.class == 2) && (i.subclass == 13)

abbrev pub is_usbmux : InterfaceDescriptor → Bool
is_usbmux i =
    (i.class == interface_class)
    && (i.subclass == interface_subclass)
    && (i.protocol == interface_protocol)

abbrev pub has_interface : (InterfaceDescriptor → Bool) → List InterfaceDescriptor → Bool
has_interface test [] = false
has_interface test (i ∷ is) = test i || has_interface test is

-- The mode that configuration 5 shows.
unfoldable pub mode_of : ConfigDescriptor → ℕ
mode_of config =
    if has_interface is_valeria config.interfaces && has_interface is_usbmux config.interfaces
    then 2
    else if has_interface is_cdc_ncm config.interfaces && has_interface is_usbmux config.interfaces
    then 3
    else 0

-- The test by which an interface is taken.
unfoldable pub is_candidate : InterfaceDescriptor → Bool
is_candidate i =
    (i.class == interface_class)
    || (i.subclass == interface_subclass)
    || (i.protocol == interface_protocol)

-- The OUT and the IN endpoint of an interface that has one of each.
unfoldable pub endpoints_of : InterfaceDescriptor → Option (ℕ × ℕ)
endpoints_of i = elim i.endpoints [
  | a ∷ b ∷ [] ↦
      if is_out a && is_in b then some (a, b) else if is_out b && is_in a then some (b, a) else none
  | _ ↦ none
]

-- The device with the first interface that fits, where there is one.
unfoldable pub choose_interface : UsbDevice → List InterfaceDescriptor → Option UsbDevice
unfolding is_candidate endpoints_of
choose_interface u [] = none
choose_interface u (i ∷ is) =
    let rest = choose_interface u is in
    if is_candidate i
    then elim (endpoints_of i) [
      | none ↦ rest
      | some (out, inward) ↦ some (record u { interface = i.number; ep_out = out; ep_in = inward })
    ]
    else rest

module _ (env : Env) where
  unfoldable pub guess_mode : ℕ → UsbDevice → M ℕ
  unfolding mode_of
  guess_mode dev u =
      if u.devdesc.num_configurations == 1
      then pure 5
      else if leb u.devdesc.num_configurations 4
      then pure 1
      else if u.devdesc.num_configurations == 6
      then pure 4
      else if not (u.devdesc.num_configurations == 5)
      then pure 0
      else (do
        call ← tick
        pure (elim (env.libusb.get_config_descriptor call dev 5) [
          | none ↦ 0
          | some config ↦ mode_of config
        ]))

  -- A kernel driver that is active on an interface is detached, whatever libusb says to it.
  unfoldable pub detach_each : ℕ → List InterfaceDescriptor → M (Unit {0})
  detach_each handle [] = skip
  detach_each handle (i ∷ is) = do
    call ← tick
    if is_one (env.libusb.kernel_driver_active call handle i.number)
        then (do _ ← tick; skip)
        else skip
    detach_each handle is

  -- Configures the device for a descriptor, unless it is so already.
  unfoldable pub configure : ℕ → ℕ → ℕ → ConfigDescriptor → M Bool
  unfolding detach_each
  configure handle current j config =
      if (current == 0) || not (config.configuration_value == current)
      then (do
        detach_each handle config.interfaces
        call ← tick
        pure (env.libusb.set_configuration call handle j))
      else pure true

  -- The loop over the configurations, from the last to the first. `found` stays set when a configuration
  -- that has an interface cannot be set.
  unfoldable pub configure_from : ℕ → ℕ → ℕ → ℕ → Bool → ℕ → M Bool
  unfolding choose_interface configure
  configure_from dev usbdev handle current found zero = pure found
  configure_from dev usbdev handle current found (suc k) = do
    call ← tick
    maybe (env.libusb.get_config_descriptor call dev (suc k))
        (configure_from dev usbdev handle current found k)
        (λ config. do
          u ← load_usb usbdev
          found' ←
              maybe (choose_interface u config.interfaces) (pure found)
                (λ u'. do store_usb usbdev u'; pure true)
          if found'
              then (do
                set ← configure handle current (suc k) config
                if set then pure true else configure_from dev usbdev handle current true k)
              else configure_from dev usbdev handle current false k)

  -- Is the result 0?
  unfoldable pub set_valid_configuration : ℕ → ℕ → ℕ → M Bool
  unfolding configure_from
  set_valid_configuration dev usbdev handle = do
    u ← load_usb usbdev
    call ← tick
    maybe (env.libusb.get_configuration call handle) (pure false)
        (λ current. configure_from dev usbdev handle current false u.devdesc.num_configurations)

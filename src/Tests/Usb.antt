-- ===== src/Tests/Usb.antt =====
-- Serial numbers, configurations and transfers of small devices.
use usbmuxd_win_mce.Base.{
  ℕ, ◌≡◌, refl, true, some, List, [], ◌∷◌, ◌++◌, pos, negsuc, false, if◌then◌else◌, ◌==◌, arith,
  replicate,
}
use usbmuxd_win_mce.State.{World, UsbDevice}
use usbmuxd_win_mce.State.Monad.{done, fault, put}
use usbmuxd_win_mce.Env.{Env, InterfaceDescriptor, ConfigDescriptor, TransferStatus}
use usbmuxd_win_mce.Usb.Serial.{serial_of}
use usbmuxd_win_mce.Usb.Serial.Text.{string_descriptor, serial_of-string_descriptor}
use usbmuxd_win_mce.Usb.Configuration.{choose_interface, endpoints_of, is_candidate, configure_from}
use usbmuxd_win_mce.Usb.Configuration.Chosen.{
  IsChosen, choose_interface-IsChosen, configure_from_stale,
}
use usbmuxd_win_mce.Usb.Transfers.{wait_quiet, rx_callback}
use usbmuxd_win_mce.Device.Lookup.{first_device}
use usbmuxd_win_mce.Usb.Events.{handle_events}
use usbmuxd_win_mce.Device.Input.{device_data_input}
use usbmuxd_win_mce.Usb.Transfers.Callbacks.{wait_quiet_stuck}
use usbmuxd_win_mce.Tests.Sample.{sample_env, sample_libusb, sample_usb, sample_world, after}

serial_of-string_descriptor_example :
    serial_of (string_descriptor (replicate 24 48)) ≡ replicate 8 48 ++ (45 ∷ replicate 16 48)
serial_of-string_descriptor_example =
    serial_of-string_descriptor (replicate 24 48) refl (omega arith)

abbrev odd_descriptor : List ℕ
odd_descriptor = 8 ∷ 3 ∷ 200 ∷ 0 ∷ 65 ∷ 1 ∷ 66 ∷ 0 ∷ 67 ∷ 0 ∷ []

-- An interface with its endpoints the other way round, behind one that does not fit.
abbrev swapped : List InterfaceDescriptor
swapped =
    record { number = 0; class = 6; subclass = 1; protocol = 1; endpoints = 2 ∷ 129 ∷ [] }
    ∷ record { number = 1; class = 255; subclass = 254; protocol = 2; endpoints = 133 ∷ 4 ∷ [] }
    ∷ []

choose_interface-IsChosen_example :
    IsChosen sample_usb (record sample_usb { interface = 1; ep_out = 4; ep_in = 133 }) swapped
unfolding choose_interface endpoints_of is_candidate
choose_interface-IsChosen_example =
    choose_interface-IsChosen sample_usb
      (record sample_usb { interface = 1; ep_out = 4; ep_in = 133 }) swapped refl

-- Configuration 4 has an interface and cannot be set; the present one is 3, which has none.
abbrev config_of : ℕ → ConfigDescriptor
config_of value = record {
  configuration_value = value;
  interfaces = if value == 4 then swapped else [];
}

abbrev unset_env : Env
unset_env = record sample_env {
  libusb = record sample_libusb {
    get_config_descriptor = λ call dev value. some (config_of value);
    set_configuration = λ call handle value. false;
  };
}

configure_from_stale_example :
    (w' : World) × (configure_from unset_env 40 9 1 3 false 4 sample_world ≡ done true w')
    × (w'.usb 9 ≡ some (record sample_usb { interface = 1; ep_out = 4; ep_in = 133 }))
unfolding choose_interface endpoints_of is_candidate
configure_from_stale_example =
    configure_from_stale unset_env 40 9 1 3 2 sample_usb
      (record sample_usb { interface = 1; ep_out = 4; ep_in = 133 }) (config_of 4) (config_of 3)
      sample_world (λ call. refl) (λ call. refl) refl refl (λ e. absurd (omega arith))
      (λ call. refl) refl refl (λ e. absurd (omega arith))

abbrev with_transfer : UsbDevice
with_transfer = record sample_usb { rx_xfers = 77 ∷ [] }

abbrev busy_world : World
busy_world = record sample_world { usb = put sample_world.usb 9 (some with_transfer) }

-- libusb takes no IN transfer and has nothing to call back.
abbrev idle_env : Env
idle_env = record sample_env {
  libusb = record sample_libusb {
    submit_in = λ call usbdev. negsuc 3;
    events = λ call. [];
    handle_events = λ call. pos 0;
  };
}

wait_quiet_stuck_example :
    (w' : World) × (rx_callback idle_env 5 9 77 TransferStatus.completed [] busy_world ≡ done tt w')
    × (w'.usb 9 ≡ some with_transfer)
    × (wait_quiet idle_env 5 (handle_events idle_env 5 3) 1000 9 w' ≡ fault)
unfolding device_data_input first_device
wait_quiet_stuck_example =
    wait_quiet_stuck idle_env 5 2 1000 9 77 [] [] with_transfer busy_world
      (after (device_data_input idle_env 5 9 [] 0 busy_world))
      (record { no_events = λ call. refl; succeeds = λ call. refl }) refl refl refl refl

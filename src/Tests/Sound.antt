-- ===== src/Tests/Sound.antt =====
-- The buffers of the clients after a reset by the device, and after a client that cannot be written to.
use usbmuxd_win_mce.Base.{inl, inr, refl, true, false, List, ◌++◌, ℕ, arith, ◌==◌, Bool-cases}
use usbmuxd_win_mce.State.{Events}
use usbmuxd_win_mce.Wire.{MuxProtocol, mux_header, tcp_header, tcp_header_of, th_rst}
use usbmuxd_win_mce.Client.Socket.Sound.{AllSound}
use usbmuxd_win_mce.Device.Input.{device_data_input, device_tcp_input}
use usbmuxd_win_mce.Device.Lookup.{first_device, first_conn}
use usbmuxd_win_mce.Device.Teardown.{
  connection_teardown, teardown_reset, teardown_client, unlink_conn,
}
use usbmuxd_win_mce.Device.Input.Sound.{device_data_input-AllSound}
use usbmuxd_win_mce.Tests.Sample.{sample_env, sample_world, after}

pub sample_world-AllSound : AllSound sample_world
sample_world-AllSound q c h alive = elim (Bool-cases (q == 3)) [
  | inl hit ↦ ground arith
  | inr miss ↦ absurd (ground arith)
]

abbrev reset_packet : List ℕ
reset_packet =
    mux_header 1 MuxProtocol.tcp 28 0 0
    ++ tcp_header (record {
      th_sport = 62078;
      th_dport = 1;
      th_seq = 1;
      th_ack_no = 1;
      th_flags = th_rst;
      th_win = 0;
    })

device_data_input-AllSound_example :
    AllSound (after (device_data_input sample_env 5 9 reset_packet 28 sample_world))
unfolding device_data_input first_device mux_header device_tcp_input first_conn tcp_header_of
    tcp_header connection_teardown teardown_reset teardown_client unlink_conn
device_data_input-AllSound_example =
    device_data_input-AllSound sample_env 5 9 reset_packet 28 sample_world _ sample_world-AllSound
      refl

abbrev writable : Events
writable = record { pollin = false; pollout = true }

-- ===== src/Tests/Devices.antt =====
-- Teardown and input from a device.
use usbmuxd_win_mce.Base.{
  ℕ, ◌-◌, ◌<◌, ◌≡◌, refl, List, [], ◌∷◌, ◌++◌, arith, sub32, take, drop, replicate,
}
use usbmuxd_win_mce.State.Monad.{fault, skip}
use usbmuxd_win_mce.Wire.{TcpHeader, mux_header, tcp_header}
use usbmuxd_win_mce.Client.Socket.{client_notify_connect}
use usbmuxd_win_mce.Device.Teardown.{teardown_with, teardown_client, teardown_reset, unlink_conn}
use usbmuxd_win_mce.Device.Teardown.Freed.{teardown_with_frees, IsFreed}
use usbmuxd_win_mce.Device.Packet.{
  send_tcp, send_segment, send_packet, send_sized, usb_send, mstime64, start_sequence, count_packet,
  acked, packet_bytes,
}
use usbmuxd_win_mce.Device.Input.{
  segment_input, handshake, device_control_input, ControlLog, c_string, synchronised,
}
use usbmuxd_win_mce.Device.Input.Faults.{segment_input_overflow, handshake_untold}
use usbmuxd_win_mce.Device.Input.Dispatch.{control_input_lem, logged_text}
use usbmuxd_win_mce.Tests.Sample.{sample_env, sample_laws, sample_conn, sample_world, after}

teardown_with_frees_example :
    IsFreed 2 1 (after (teardown_with sample_env 5 (λ _. skip) 2 sample_world))
unfolding teardown_with teardown_client teardown_reset unlink_conn send_tcp send_segment send_packet
    send_sized usb_send mstime64 start_sequence count_packet acked packet_bytes mux_header
    tcp_header
teardown_with_frees_example =
    teardown_with_frees sample_env 5 (λ _. skip) 2 sample_conn sample_world _ sample_laws refl refl
      refl

abbrev data_segment : TcpHeader
data_segment = record {
  th_sport = 62078;
  th_dport = 1;
  th_seq = 1;
  th_ack_no = 1;
  th_flags = 16;
  th_win = 512;
}

-- The in-buffer of the connection has room for two bytes more.
segment_input_overflow_example :
    segment_input sample_env 5 2 data_segment (1 ∷ 2 ∷ 3 ∷ []) sample_world ≡ fault
segment_input_overflow_example =
    segment_input_overflow sample_env 5 2 sample_conn data_segment (1 ∷ 2 ∷ 3 ∷ []) sample_world
      refl refl refl refl

-- The client is not waiting for the answer.
handshake_untold_example : handshake sample_env 5 2 sample_world ≡ fault
unfolding synchronised send_tcp send_segment send_packet send_sized usb_send mstime64 start_sequence
    count_packet acked packet_bytes mux_header tcp_header client_notify_connect
handshake_untold_example =
    handshake_untold sample_env 5 2 3 0 28 sample_conn _ _ sample_world _ _ refl refl refl refl refl
      refl refl

-- A message of the device, with one byte behind its NUL.
abbrev error_packet : List ℕ
error_packet = replicate 16 0 ++ (3 ∷ 72 ∷ 105 ∷ 0 ∷ 33 ∷ [])

abbrev error_line : ControlLog
error_line = device_control_input (drop 16 error_packet) (sub32 21 16)

control_input_lem_example :
    (16 < 21
      → logged_text error_line ≡ c_string (take (21 - 16 - 1) (drop 1 (drop 16 error_packet))))
    × (◌≡◌ {A = ℕ} 21 16 → logged_text error_line ≡ [])
    × (21 < 16 → logged_text error_line ≡ c_string (drop 1 (drop 16 error_packet)))
control_input_lem_example = control_input_lem error_packet 21 (omega arith)

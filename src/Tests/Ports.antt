-- ===== src/Tests/Ports.antt =====
-- Ports, ids, timeouts and the device list.
use usbmuxd_win_mce.Base.{
  ℕ, ◌<◌, ◌≤◌, ◌^◌, ◌≡◌, ◌≢◌, ◌⊎◌, refl, true, false, some, [], ◌∷◌, arith, contains, add16,
}
use usbmuxd_win_mce.State.{MuxConnection}
use usbmuxd_win_mce.Device.Ports.{find_sport_in}
use usbmuxd_win_mce.Device.Ports.Fresh.{find_sport_in_lem}
use usbmuxd_win_mce.Device.Connect.{device_start_connect, find_sport, open_connection}
use usbmuxd_win_mce.Device.Connect.Opened.{start_connect_fresh, IsOpen}
use usbmuxd_win_mce.Device.Lookup.{get_mux_device_for_id, load_conns}
use usbmuxd_win_mce.Device.Packet.{
  send_segment, send_packet, send_sized, usb_send, mstime64, start_sequence, count_packet,
  packet_bytes,
}
use usbmuxd_win_mce.Wire.{mux_header, tcp_header}
use usbmuxd_win_mce.Tests.Sample.{sample_env, sample_device, sample_conn, sample_world, after}

-- The ports go round: 65535 is in use, and 0 is the next one.
find_sport_wraps : find_sport_in 3 (65535 ∷ 1 ∷ []) 65535 ≡ some (0, 1)
unfolding find_sport_in
find_sport_wraps = refl

find_sport_in_lem_example :
    (p : ℕ) × (n : ℕ) × (find_sport_in 65536 (1 ∷ 2 ∷ []) 1 ≡ some (p, n))
    × (n < 2 ^ 16)
    × (((65535 ≤ 2) × (p ≡ 0) × (n ≡ 1))
        ⊎ ((2 < 65535) × (contains p (1 ∷ 2 ∷ []) ≡ false) × (p < 2 ^ 16) × (n ≡ add16 p 1)))
find_sport_in_lem_example = find_sport_in_lem (1 ∷ 2 ∷ []) 1 65536 (omega arith) (omega arith)

-- Device 1 has a connection on port 1; the new one gets another.
start_connect_fresh_example :
    (sport : ℕ) × (sport ≢ 0)
    × (contains sport (1 ∷ []) ≡ false)
    × IsOpen sample_env 1 sport 62078 3
        (2 ∷ [])
        sample_world
        (after (device_start_connect sample_env 1 62078 3 sample_world))
unfolding get_mux_device_for_id load_conns device_start_connect find_sport find_sport_in
    open_connection send_segment send_packet send_sized usb_send mstime64 start_sequence
    count_packet packet_bytes mux_header tcp_header
start_connect_fresh_example =
    start_connect_fresh sample_env 1 62078 3 1 sample_device (2 ∷ []) (sample_conn ∷ [])
      sample_world _ refl refl refl refl (omega arith) refl

abbrev waiting_conn : MuxConnection
waiting_conn = record sample_conn { ack_pending = true; last_ack_time = 40 }

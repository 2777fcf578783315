-- ===== src/Tests/Wire.antt =====
-- Packets and headers.
use usbmuxd_win_mce.Base.{
  ℕ, ◌≡◌, refl, some, List, [], ◌∷◌, ◌++◌, pos, negsuc, arith, length, replicate, be32, be32_at,
}
use usbmuxd_win_mce.State.{World, MuxDevice}
use usbmuxd_win_mce.State.Monad.{done, put}
use usbmuxd_win_mce.Env.{Env}
use usbmuxd_win_mce.Wire.{MuxProtocol, TcpHeader, tcp_header, tcp_header_of, mux_header}
use usbmuxd_win_mce.Wire.RoundTrip.{tcp_header_of-tcp_header}
use usbmuxd_win_mce.Device.Gather.{packet, with_pktbuf, gather}
use usbmuxd_win_mce.Device.Gather.Reassembly.{
  gather_all, gather_all-join, gather-IsBounded, IsBounded, join,
}
use usbmuxd_win_mce.Device.Packet.{packet_bytes, send_packet, start_sequence, count_packet}
use usbmuxd_win_mce.Device.Packet.Sent.{
  under_way, IsSent, packet_bytes_lem, send_packet-IsSent, send_packet_zlp_fails,
}
use usbmuxd_win_mce.Device.Window.{refreshed}
use usbmuxd_win_mce.Device.Window.Bounds.{refreshed-IsRefreshed, IsRefreshed}
use usbmuxd_win_mce.Tests.Sample.{sample_env, sample_device, sample_conn, sample_usb, sample_world}

abbrev segment : TcpHeader
segment = record {
  th_sport = 62078;
  th_dport = 1;
  th_seq = 7;
  th_ack_no = 8;
  th_flags = 16;
  th_win = 512;
}

tcp_header_of-tcp_header_example :
    (tcp_header_of (tcp_header segment ++ (1 ∷ [])) ≡ segment) × (length (tcp_header segment) ≡ 20)
tcp_header_of-tcp_header_example = tcp_header_of-tcp_header segment (1 ∷ []) (omega arith)

-- A packet of 16388 bytes in two transfers.
abbrev first_transfer : List ℕ
first_transfer = be32 6 ++ (be32 16388 ++ replicate 16376 0)

abbrev last_transfer : List ℕ
last_transfer = 1 ∷ 2 ∷ 3 ∷ 4 ∷ []

gather_all-join_example :
    gather_all sample_device (first_transfer ∷ []) last_transfer
    ≡ packet
        (with_pktbuf sample_device [])
        (join (first_transfer ∷ []) last_transfer)
        (length (join (first_transfer ∷ []) last_transfer))
gather_all-join_example =
    gather_all-join sample_device (first_transfer ∷ []) last_transfer refl (refl, tt) (omega arith)
      (omega arith) refl (omega arith)

gather-IsBounded_example :
    IsBounded sample_device last_transfer 4 (gather sample_device last_transfer 4)
gather-IsBounded_example =
    gather-IsBounded sample_device last_transfer 4 (omega arith) (omega arith)

packet_bytes_lem_example :
    let m = packet_bytes sample_device MuxProtocol.tcp 29 20 (tcp_header segment) (5 ∷ []) in
    (length m ≡ 29) × (be32_at m 0 ≡ 6) × (be32_at m 4 ≡ 29)
packet_bytes_lem_example =
    packet_bytes_lem sample_device MuxProtocol.tcp 20 (tcp_header segment) (5 ∷ [])
      tcp_header_of-tcp_header_example.1 (omega arith)

refreshed-IsRefreshed_example : IsRefreshed sample_conn (refreshed sample_conn)
refreshed-IsRefreshed_example = refreshed-IsRefreshed sample_conn

-- A device of version 2.
abbrev new_device : MuxDevice
new_device = record sample_device { version = 2 }

abbrev new_world : World
new_world = record sample_world { devices = put sample_world.devices 1 (some new_device) }

send_packet-IsSent_example :
    let m =
      packet_bytes
        (start_sequence new_device MuxProtocol.tcp)
        MuxProtocol.tcp
        37
        20
        (tcp_header segment)
        (5 ∷ []) in
    (v : MuxDevice) × (send_packet sample_env 1 MuxProtocol.tcp
        (tcp_header segment)
        (5 ∷ [])
        new_world
      ≡ done (pos 37) (record new_world {
        devices = put new_world.devices 1 (some v);
        usb = put new_world.usb 9 (some (under_way sample_env sample_usb 0));
        calls = 1;
        transfers = (9, m) ∷ [];
      }))
    × IsSent new_device v MuxProtocol.tcp 37 (tcp_header segment) (5 ∷ []) m
unfolding packet_bytes tcp_header mux_header start_sequence
send_packet-IsSent_example =
    send_packet-IsSent sample_env 1 MuxProtocol.tcp (tcp_header segment) (5 ∷ []) 20 new_device _
      new_world refl refl refl refl (omega arith) (omega arith) (omega arith) refl refl

-- libusb takes no empty transfer.
abbrev no_empty : Env
no_empty = record sample_env {
  submit_transfer = λ call dev b. elim b [ [] ↦ negsuc 4 | _ ∷ _ ↦ pos 0 ];
}

send_packet_zlp_fails_example :
    let d = start_sequence sample_device MuxProtocol.tcp in
    let m = packet_bytes d MuxProtocol.tcp 512 20 (tcp_header segment) (replicate 484 0) in
    send_packet no_empty 1 MuxProtocol.tcp (tcp_header segment) (replicate 484 0) sample_world
    ≡ done (negsuc 4) (record sample_world {
      devices = put sample_world.devices 1 (some (count_packet d));
      usb = put sample_world.usb 9 (some (under_way no_empty sample_usb 0));
      calls = 2;
      transfers = (9, m) ∷ [];
    })
unfolding packet_bytes tcp_header mux_header start_sequence
send_packet_zlp_fails_example =
    send_packet_zlp_fails no_empty 1 MuxProtocol.tcp (tcp_header segment) (replicate 484 0) 20 4
      sample_device _ sample_world refl refl refl (omega arith) refl refl refl

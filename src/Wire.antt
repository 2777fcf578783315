-- ===== src/Wire.antt =====
-- The packets of the USB link: src/device.c, the headers of a mux packet and of the TCP segments
-- inside it, as bytes in network order.
pub mod RoundTrip
use usbmuxd_win_mce.Base.{
  ℕ, ◌+◌, ◌*◌, ◌/◌, ◌%◌, Bool, List, [], ◌∷◌, ◌++◌, Option, none, some, ltb, ◌==◌, if◌then◌else◌,
  be16, be32, be16_at, be32_at, byte_at,
}

-- usb.h
abbrev pub usb_mru : ℕ
usb_mru = 16384

abbrev pub usb_mtu : ℕ
usb_mtu = 3 * 16384

abbrev pub dev_mru : ℕ
dev_mru = 65536

-- `enum mux_protocol`
pub data MuxProtocol : Type 0 where
  version control setup tcp : MuxProtocol

abbrev pub proto_number : MuxProtocol → ℕ
proto_number MuxProtocol.version = 0
proto_number MuxProtocol.control = 1
proto_number MuxProtocol.setup = 2
proto_number MuxProtocol.tcp = 6

-- sizeof(struct version_header), sizeof(struct tcphdr), sizeof(struct mux_header)
abbrev pub version_header_size : ℕ
version_header_size = 12

abbrev pub tcphdr_size : ℕ
tcphdr_size = 20

abbrev pub mux_header_full_size : ℕ
mux_header_full_size = 16

-- The switch of `send_packet`: the size of the protocol's header, `none` for an invalid protocol.
abbrev pub header_size : MuxProtocol → Option ℕ
header_size MuxProtocol.version = some version_header_size
header_size MuxProtocol.setup = some 0
header_size MuxProtocol.tcp = some tcphdr_size
header_size MuxProtocol.control = none

-- A device of version 0 or 1 has no magic and no sequence numbers in its mux header.
abbrev pub mux_header_size : ℕ → ℕ
mux_header_size dev_version = if ltb dev_version 2 then 8 else mux_header_full_size

-- `struct mux_header`; the last three fields are sent to a device of version 2 only.
unfoldable pub mux_header : ℕ → MuxProtocol → ℕ → ℕ → ℕ → List ℕ
mux_header dev_version proto total tx_seq rx_seq =
    be32 (proto_number proto)
    ++ be32 total
    ++ (if ltb dev_version 2 then [] else be32 0xfeedface ++ be16 tx_seq ++ be16 rx_seq)

-- `struct version_header`
unfoldable pub version_header : ℕ → ℕ → ℕ → List ℕ
version_header major minor padding = be32 major ++ be32 minor ++ be32 padding

-- The flag bits of <netinet/tcp.h>.
abbrev pub th_syn : ℕ
th_syn = 2

abbrev pub th_rst : ℕ
th_rst = 4

abbrev pub th_ack : ℕ
th_ack = 16

-- `th_flags & TH_RST`
abbrev pub has_rst : ℕ → Bool
has_rst flags = flags / 4 % 2 == 1

-- The fields of `struct tcphdr` that the program writes; the others are 0, and `th_off` is 5 words.
pub record TcpHeader : Type 0 where
  pub th_sport : ℕ
  pub th_dport : ℕ
  pub th_seq : ℕ
  pub th_ack_no : ℕ
  pub th_flags : ℕ
  pub th_win : ℕ

unfoldable pub tcp_header : TcpHeader → List ℕ
tcp_header th =
    be16 th.th_sport
    ++ be16 th.th_dport
    ++ be32 th.th_seq
    ++ be32 th.th_ack_no
    ++ 0x50 ∷ th.th_flags ∷ be16 th.th_win
    ++ be16 0
    ++ be16 0

-- The header as `device_tcp_input` reads it at an offset of the packet.
unfoldable pub tcp_header_of : List ℕ → TcpHeader
tcp_header_of m = record {
  th_sport = be16_at m 0;
  th_dport = be16_at m 2;
  th_seq = be32_at m 4;
  th_ack_no = be32_at m 8;
  th_flags = byte_at m 13;
  th_win = be16_at m 14;
}

-- ===== src/Wire/RoundTrip.antt =====
-- What is written on the USB link is read back: the headers of src/device.c.
use usbmuxd_win_mce.Base.{ℕ, ◌^◌, ◌<◌, ◌≡◌, List, ◌++◌, arith, length, be32_at}
use usbmuxd_win_mce.Wire.{
  MuxProtocol, TcpHeader, tcp_header, tcp_header_of, mux_header, mux_header_size, proto_number,
}

-- The fields of a segment's header fit their widths.
pub record InRange (th : TcpHeader) : Type 0 where
  pub sport_fits : th.th_sport < 2 ^ 16
  pub dport_fits : th.th_dport < 2 ^ 16
  pub seq_fits : th.th_seq < 2 ^ 32
  pub ack_fits : th.th_ack_no < 2 ^ 32
  pub win_fits : th.th_win < 2 ^ 16

-- A segment whose fields fit their widths is read back from its twenty header bytes, whatever
-- payload follows.
pub tcp_header_of-tcp_header :
    (th : TcpHeader) (payload : List ℕ)
    → InRange th
    → (tcp_header_of (tcp_header th ++ payload) ≡ th) × (length (tcp_header th) ≡ 20)
unfolding tcp_header_of tcp_header
tcp_header_of-tcp_header th payload v = ground arith

-- The second word of a mux header is the packet's length, the first its protocol, and the header
-- has the size that the device's version asks for, for a length below 2 ^ 32.
pub mux_header_lem :
    (dev_version : ℕ) (proto : MuxProtocol) (total tx_seq rx_seq : ℕ) (rest : List ℕ)
    → total < 2 ^ 32
    → let header = mux_header dev_version proto total tx_seq rx_seq in
      (be32_at (header ++ rest) 0 ≡ proto_number proto)
      × (be32_at (header ++ rest) 4 ≡ total)
      × (length header ≡ mux_header_size dev_version)
unfolding mux_header
mux_header_lem v p total tx_seq rx_seq rest h = ground arith

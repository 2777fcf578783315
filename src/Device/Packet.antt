-- ===== src/Device/Packet.antt =====
-- Outgoing packets: `send_packet` and the TCP segments of src/device.c, over `usb_send` of
-- src/usb.c and the clock of src/utils.c.
pub mod Sent
use usbmuxd_win_mce.Base.{
  ℕ, ◌+◌, ◌*◌, ◌/◌, ◌%◌, Bool, true, false, Option, none, some, List, [], ◌∷◌, ◌++◌, ℤ, pos, neg,
  is_neg, length, take, ltb, ◌==◌, if◌then◌else◌, add16,
}
use usbmuxd_win_mce.State.{World, MuxDevice, MuxConnection}
use usbmuxd_win_mce.State.Monad.{
  M, pure, ◌>>=◌, ◌>>◌, load_device, store_device, load_conn, store_conn, load_usb, store_usb, tick,
  modify,
}
use usbmuxd_win_mce.Env.{Env}
use usbmuxd_win_mce.Wire.{
  MuxProtocol, header_size, mux_header_size, mux_header, usb_mtu, TcpHeader, tcp_header,
  tcphdr_size, th_rst,
}

abbrev pub is_setup : MuxProtocol → Bool
is_setup MuxProtocol.setup = true
is_setup _ = false

-- A SETUP packet restarts the sequence numbers of a device of version 2.
unfoldable pub start_sequence : MuxDevice → MuxProtocol → MuxDevice
start_sequence d proto =
    if ltb d.version 2
    then d
    else (if is_setup proto then record d { tx_seq = 0; rx_seq = 0xffff } else d)

-- A device of version 2 counts the packets sent.
unfoldable pub count_packet : MuxDevice → MuxDevice
count_packet d = if ltb d.version 2 then d else record d { tx_seq = add16 d.tx_seq 1 }

-- The bytes of a packet.
unfoldable pub packet_bytes : MuxDevice → MuxProtocol → ℕ → ℕ → List ℕ → List ℕ → List ℕ
packet_bytes d proto total hdrlen header payload =
    mux_header d.version proto total d.tx_seq d.rx_seq ++ (take hdrlen header ++ payload)

-- TCP flags and the fields of `send_tcp`.
unfoldable pub segment_header : MuxConnection → ℕ → TcpHeader
segment_header c flags = record {
  th_sport = c.sport;
  th_dport = c.dport;
  th_seq = c.tx_seq;
  th_ack_no = c.tx_ack;
  th_flags = flags;
  th_win = c.tx_win / 256 % 65536;
}

-- `send_tcp` notes the acknowledgement that it sent.
unfoldable pub acked : MuxConnection → ℕ → MuxConnection
acked c now = record c { tx_acked = c.tx_ack; last_ack_time = now; ack_pending = false }

module _ (env : Env) where
  -- `long long` milliseconds
  unfoldable pub mstime64 : M ℕ
  mstime64 = do call ← tick; pure (env.clock_sec call * 1000 + env.clock_nsec call / 1000 / 1000)

  -- A transfer that libusb takes is one of the device's until its callback has run.
  abbrev submit : ℕ → List ℕ → M ℤ
  submit usbdev buf = do
    call ← tick
    let res = env.submit_transfer call usbdev buf
    if is_neg res then pure res else (do
      u ← load_usb usbdev
      store_usb usbdev (record u { tx_xfers = env.collection_add u.tx_xfers call })
      modify (λ w. record w { transfers = (usbdev, buf) ∷ w.transfers })
      pure res)

  -- A transfer that fills its last USB packet is followed by an empty one.
  unfoldable pub usb_send : ℕ → List ℕ → M ℤ
  usb_send usbdev buf = do
    u ← load_usb usbdev
    res ← submit usbdev buf
    if is_neg res
        then pure res
        else if length buf % u.max_packet_size == 0
        then (do zlp ← submit usbdev []; pure (if is_neg zlp then zlp else pos 0))
        else pure (pos 0)

  unfoldable pub send_sized : ℕ → MuxProtocol → ℕ → List ℕ → List ℕ → M ℤ
  send_sized dev proto hdrlen header payload = do
    d ← load_device dev
    let total = mux_header_size d.version + hdrlen + length payload
    if ltb usb_mtu total then pure (neg 1) else (do
      let d' = start_sequence d proto
      store_device dev (count_packet d')
      res ← usb_send d.usbdev (packet_bytes d' proto total hdrlen header payload)
      pure (if is_neg res then res else pos total))

  -- Returns the size of the packet, or a negative error.
  unfoldable pub send_packet : ℕ → MuxProtocol → List ℕ → List ℕ → M ℤ
  send_packet dev proto header payload = elim (header_size proto) [
    | none ↦ pure (neg 1)
    | some hdrlen ↦ send_sized dev proto hdrlen header payload
  ]

  unfoldable pub send_anon_rst : ℕ → ℕ → ℕ → ℕ → M ℤ
  send_anon_rst dev sport dport ack =
      send_packet dev MuxProtocol.tcp
        (tcp_header (record {
          th_sport = sport;
          th_dport = dport;
          th_seq = 0;
          th_ack_no = ack;
          th_flags = th_rst;
          th_win = 0;
        }))
        []

  -- The segment of a connection that is at hand, and the connection after it.
  unfoldable pub send_segment : MuxConnection → ℕ → List ℕ → M (ℤ × MuxConnection)
  unfolding segment_header acked
  send_segment c flags payload = do
    res ← send_packet c.dev MuxProtocol.tcp (tcp_header (segment_header c flags)) payload
    if is_neg res then pure (res, c) else (do now ← mstime64; pure (res, acked c now))

  unfoldable pub send_tcp : ℕ → ℕ → List ℕ → M ℤ
  unfolding send_segment
  send_tcp conn flags payload = do
    c ← load_conn conn
    (res, c') ← send_segment c flags payload
    store_conn conn c'
    pure res

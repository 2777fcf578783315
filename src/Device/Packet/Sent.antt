-- ===== src/Device/Packet/Sent.antt =====
-- The packets that leave (src/device.c).
use usbmuxd_win_mce.Base.{
  ℕ, ◌+◌, ◌-◌, ◌%◌, ◌^◌, ◌≤◌, ◌<◌, ◌≡◌, true, false, some, List, [], ◌∷◌, ◌++◌, pos, neg, negsuc,
  is_neg, arith, subst, sym, length, length-append, length-take, take-length, take, drop, be16_at,
  ◌==◌, be32_at,
}
use usbmuxd_win_mce.State.{World, MuxDevice, MuxConnection, UsbDevice}
use usbmuxd_win_mce.State.Monad.{done, put}
use usbmuxd_win_mce.Env.{Env}
use usbmuxd_win_mce.Wire.{
  MuxProtocol, proto_number, header_size, mux_header, mux_header_size, mux_header_full_size,
  usb_mtu, tcphdr_size,
}
use usbmuxd_win_mce.Wire.RoundTrip.{mux_header_lem}
use usbmuxd_win_mce.Device.Packet.{
  is_setup, start_sequence, count_packet, packet_bytes, send_sized, send_packet, usb_send,
}
use usbmuxd_win_mce.Device.Window.{sendable_of}
use usbmuxd_win_mce.Device.Window.Bounds.{sendable_bounds}

-- The bytes of a packet are as many as its length word says, and the word before it is the protocol,
-- for a header of the size that the protocol asks for.
pub packet_bytes_lem :
    (d : MuxDevice) (proto : MuxProtocol) (hdrlen : ℕ) (header payload : List ℕ)
    → length header ≡ hdrlen
    → mux_header_size d.version + hdrlen + length payload ≤ usb_mtu
    → let total = mux_header_size d.version + hdrlen + length payload in
      let m = packet_bytes d proto total hdrlen header payload in
      (length m ≡ total) × (be32_at m 0 ≡ proto_number proto) × (be32_at m 4 ≡ total)
unfolding packet_bytes
packet_bytes_lem d proto hdrlen header payload h b = (
  omega (
    arith,
    head.2,
    length-append (mux_header d.version proto total d.tx_seq d.rx_seq)
        (take hdrlen header ++ payload),
    length-append (take hdrlen header) payload,
    length-take hdrlen header,
  ),
  head.0,
  head.1,
)
  where
    total : ℕ
    total = mux_header_size d.version + hdrlen + length payload

    head :
        (be32_at
            (mux_header d.version proto total d.tx_seq d.rx_seq ++ (take hdrlen header ++ payload))
            0
          ≡ proto_number proto)
        × (be32_at
              (mux_header d.version proto total d.tx_seq d.rx_seq
                ++ (take hdrlen header ++ payload))
              4
            ≡ total)
        × (length (mux_header d.version proto total d.tx_seq d.rx_seq) ≡ mux_header_size d.version)
    head =
        mux_header_lem d.version proto total d.tx_seq d.rx_seq (take hdrlen header ++ payload)
          (omega arith)

-- What a client has sent that fits the send window fits one packet, for a connection that has the
-- payload limit of `device_start_connect`.
pub sendable-fits_mtu :
    (c : MuxConnection) (dev_version n : ℕ)
    → c.max_payload ≡ usb_mtu - mux_header_full_size - tcphdr_size
    → n ≤ sendable_of c
    → mux_header_size dev_version + tcphdr_size + n ≤ usb_mtu
sendable-fits_mtu c v n h k = ground (arith, sendable_bounds c)

-- The USB device with one more transfer under way.
abbrev pub under_way : Env → UsbDevice → ℕ → UsbDevice
under_way env u call = record u { tx_xfers = env.collection_add u.tx_xfers call }

-- What a packet has of its device, and what the device has after it.
pub record IsSent (d v : MuxDevice) (proto : MuxProtocol) (total : ℕ) (header payload m : List ℕ)
    : Type 0 where
  pub whole : length m ≡ total
  pub protocol : be32_at m 0 ≡ proto_number proto
  pub says_length : be32_at m 4 ≡ total
  pub content : drop (mux_header_size d.version) m ≡ header ++ payload
  pub old_version : d.version < 2 → v ≡ d
  pub restarts :
      2 ≤ d.version
      → is_setup proto ≡ true
      → (be16_at m 12 ≡ 0)
        × (be16_at m 14 ≡ 0xffff)
        × (v ≡ record d { tx_seq = 1; rx_seq = 0xffff })
  pub counts :
      2 ≤ d.version
      → is_setup proto ≡ false
      → (be16_at m 12 ≡ d.tx_seq)
        × (be16_at m 14 ≡ d.rx_seq)
        × (v ≡ record d { tx_seq = (d.tx_seq + 1) % 2 ^ 16 })

start_sequence-version :
    (d : MuxDevice) (proto : MuxProtocol) → (start_sequence d proto).version ≡ d.version
unfolding start_sequence
start_sequence-version d proto = ground arith

IsSent_lem :
    (d : MuxDevice) (proto : MuxProtocol) (hdrlen : ℕ) (header payload : List ℕ)
    → length header ≡ hdrlen
    → d.tx_seq < 2 ^ 16
    → d.rx_seq < 2 ^ 16
    → mux_header_size d.version + hdrlen + length payload ≤ usb_mtu
    → let total = mux_header_size d.version + hdrlen + length payload in
      IsSent d
        (count_packet (start_sequence d proto))
        proto
        total
        header
        payload
        (packet_bytes (start_sequence d proto) proto total hdrlen header payload)
unfolding count_packet start_sequence packet_bytes mux_header
IsSent_lem d proto hdrlen header payload h t r b = record {
  whole = words.0;
  protocol = words.1;
  says_length = words.2;
  content = ground (arith, take-length hdrlen header);
  old_version = λ v. ground arith;
  restarts = λ v s. (ground arith, ground arith, ground arith);
  counts = λ v s. (ground arith, ground arith, ground arith);
}
  where
    bytes : ℕ → List ℕ
    bytes total = packet_bytes (start_sequence d proto) proto total hdrlen header payload

    Words : ℕ → Type 0
    Words total =
        (length (bytes total) ≡ total)
        × (be32_at (bytes total) 0 ≡ proto_number proto)
        × (be32_at (bytes total) 4 ≡ total)

    words : Words (mux_header_size d.version + hdrlen + length payload)
    words =
        let same = start_sequence-version d proto in
        subst (λ k. Words (mux_header_size k + hdrlen + length payload)) same
          (packet_bytes_lem (start_sequence d proto) proto hdrlen header payload h
            (subst (λ k. mux_header_size k + hdrlen + length payload ≤ usb_mtu) (sym same) b))

module _ (env : Env) where
  -- A packet over the limit is refused and changes nothing.
  pub send_packet_too_large :
      (dev : ℕ) (proto : MuxProtocol) (header payload : List ℕ) (hdrlen : ℕ) (d : MuxDevice)
      (w : World)
      → header_size proto ≡ some hdrlen
      → w.devices dev ≡ some d
      → usb_mtu < mux_header_size d.version + hdrlen + length payload
      → send_packet env dev proto header payload w ≡ done (neg 1) w
  unfolding send_packet send_sized
  send_packet_too_large dev proto header payload hdrlen d w p h b = ground arith

  -- A packet of at most USB_MTU bytes that libusb takes, and that does not fill its last USB packet, is
  -- the newest of the transfers and one of the USB device's, and the result is its length. Its bytes say
  -- this length and the protocol, and end with the protocol's header and the payload. For a device of version 2 they
  -- have the sequence numbers of the device, after a SETUP packet has set these to 0 and 0xffff; the
  -- device then has the next one, modulo 2 ^ 16, and is otherwise as it was. A device of an older
  -- version stays as it was.
  pub send_packet-IsSent :
      (dev : ℕ) (proto : MuxProtocol) (header payload : List ℕ) (hdrlen : ℕ) (d : MuxDevice)
      (u : UsbDevice) (w : World)
      → header_size proto ≡ some hdrlen
      → length header ≡ hdrlen
      → w.devices dev ≡ some d
      → w.usb d.usbdev ≡ some u
      → d.tx_seq < 2 ^ 16
      → d.rx_seq < 2 ^ 16
      → mux_header_size d.version + hdrlen + length payload ≤ usb_mtu
      → let total = mux_header_size d.version + hdrlen + length payload in
        let m = packet_bytes (start_sequence d proto) proto total hdrlen header payload in
        is_neg (env.submit_transfer w.calls d.usbdev m) ≡ false
        → (total % u.max_packet_size == 0) ≡ false
        → (v : MuxDevice) × (send_packet env dev proto header payload w
            ≡ done (pos total) (record w {
              devices = put w.devices dev (some v);
              usb = put w.usb d.usbdev (some (under_way env u w.calls));
              calls = w.calls + 1;
              transfers = (d.usbdev, m) ∷ w.transfers;
            }))
          × IsSent d v proto total header payload m
  unfolding send_packet send_sized usb_send
  send_packet-IsSent dev proto header payload hdrlen d u w p l h k t r b s z =
      let sent = IsSent_lem d proto hdrlen header payload l t r b in
      let size = sent.whole in (count_packet (start_sequence d proto), ground (arith, size), sent)

  -- Where libusb takes a packet of at most USB_MTU bytes that fills its last USB packet, but not the
  -- empty one behind it, the packet is under way as one of the USB device's transfers and counted, although the result is
  -- an error.
  pub send_packet_zlp_fails :
      (dev : ℕ) (proto : MuxProtocol) (header payload : List ℕ) (hdrlen k : ℕ) (d : MuxDevice)
      (u : UsbDevice) (w : World)
      → header_size proto ≡ some hdrlen
      → w.devices dev ≡ some d
      → w.usb d.usbdev ≡ some u
      → mux_header_size d.version + hdrlen + length payload ≤ usb_mtu
      → let total = mux_header_size d.version + hdrlen + length payload in
        let d' = start_sequence d proto in
        let m = packet_bytes d' proto total hdrlen header payload in
        is_neg (env.submit_transfer w.calls d.usbdev m) ≡ false
        → (length m % u.max_packet_size == 0) ≡ true
        → env.submit_transfer (w.calls + 1) d.usbdev [] ≡ negsuc k
        → send_packet env dev proto header payload w
          ≡ done (negsuc k) (record w {
            devices = put w.devices dev (some (count_packet d'));
            usb = put w.usb d.usbdev (some (under_way env u w.calls));
            calls = w.calls + 1 + 1;
            transfers = (d.usbdev, m) ∷ w.transfers;
          })
  unfolding send_packet send_sized usb_send
  send_packet_zlp_fails dev proto header payload hdrlen k d u w p h l b s z f = ground arith

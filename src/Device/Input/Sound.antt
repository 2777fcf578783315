-- ===== src/Device/Input/Sound.antt =====
-- What comes from a device keeps the buffers of every client (`device_data_input` of src/device.c).
pub mod Segment
use usbmuxd_win_mce.Base.{
  ℕ, ◌≡◌, ◌+◌, ◌-◌, Bool, ◌&&◌, ◌||◌, Option, none, some, List, ltb, ◌==◌, take, drop, byte_at,
  be16_at, be32_at, sub32, if◌then◌else◌,
}
use usbmuxd_win_mce.State.{World, MuxDevice}
use usbmuxd_win_mce.State.Monad.{M, done, skip, deref, ◌>>=◌, ◌>>◌, load_device, store_device}
use usbmuxd_win_mce.Env.{Env}
use usbmuxd_win_mce.Wire.{
  MuxProtocol, usb_mru, dev_mru, has_rst, TcpHeader, tcp_header, tcp_header_of, tcphdr_size,
  mux_header_size, version_header_size, th_rst,
}
use usbmuxd_win_mce.Client.Socket.Sound.{
  KeepsSound, AllSound, >>=-KeepsSound, untouched-KeepsSound, if-KeepsSound,
}
use usbmuxd_win_mce.Device.Packet.{send_anon_rst}
use usbmuxd_win_mce.Device.Lookup.{first_conn, first_device}
use usbmuxd_win_mce.Device.Info.{is_active}
use usbmuxd_win_mce.Device.Gather.{Gathered, dropped, waiting, packet, gather, length_field}
use usbmuxd_win_mce.Device.Teardown.Untouched.{first_conn-Untouched, first_device-Untouched}
use usbmuxd_win_mce.Device.Teardown.Sound.{skip-KeepsSound, optional-KeepsSound}
use usbmuxd_win_mce.Device.Transfer.Sound.{deref-KeepsSound}
use usbmuxd_win_mce.Device.Input.{
  device_version_input, device_control_input, segment_input, device_tcp_input, dispatch, gathered,
  device_data_input,
}
use usbmuxd_win_mce.Device.Input.Sound.Segment.{
  load_device-KeepsSound, store_device-KeepsSound, send_packet-KeepsSound,
  device_version_input-KeepsSound, segment_input-KeepsSound,
}

module _ (env : Env) (fuel : ℕ) where
  send_anon_rst-KeepsSound :
      (dev sport dport ack : ℕ) → KeepsSound (send_anon_rst env dev sport dport ack)
  unfolding send_anon_rst
  send_anon_rst-KeepsSound dev sport dport ack = send_packet-KeepsSound env dev MuxProtocol.tcp _ _

  -- A segment for the connection that was found, or for none.
  for_connection : ℕ → TcpHeader → List ℕ → Option ℕ → M (Unit {0})
  for_connection dev th payload found = elim found [
    | some conn ↦ segment_input env fuel conn th payload
    | none ↦
        if has_rst th.th_flags
        then skip
        else (do _ ← send_anon_rst env dev th.th_dport th.th_sport th.th_seq; skip)
  ]

  for_connection-KeepsSound :
      (dev : ℕ) (th : TcpHeader) (payload : List ℕ) (found : Option ℕ)
      → KeepsSound (for_connection dev th payload found)
  unfolding for_connection
  for_connection-KeepsSound dev th payload none =
      if-KeepsSound (has_rst th.th_flags) _ _ skip-KeepsSound (
        >>=-KeepsSound (send_anon_rst env dev th.th_dport th.th_sport th.th_seq) _
          (send_anon_rst-KeepsSound dev th.th_dport th.th_sport th.th_seq) (λ _. skip-KeepsSound))
  for_connection-KeepsSound dev th payload (some conn) =
      segment_input-KeepsSound env fuel conn th payload

  device_tcp_input-KeepsSound :
      (dev : ℕ) (th : TcpHeader) (payload : List ℕ)
      → KeepsSound (device_tcp_input env fuel dev th payload)
  unfolding device_tcp_input for_connection
  device_tcp_input-KeepsSound dev th payload =
      >>=-KeepsSound (load_device dev) _ (load_device-KeepsSound dev) (λ d.
        if-KeepsSound (is_active d.state) _ _
          (>>=-KeepsSound (deref d.connections) _ (deref-KeepsSound d.connections) (λ ps.
            >>=-KeepsSound
              (first_conn (λ c. (c.sport == th.th_dport) && (c.dport == th.th_sport)) ps)
              (for_connection dev th payload)
              (untouched-KeepsSound
                (first_conn (λ c. (c.sport == th.th_dport) && (c.dport == th.th_sport)) ps)
                (first_conn-Untouched (λ c. (c.sport == th.th_dport) && (c.dport == th.th_sport))
                  ps))
              (for_connection-KeepsSound dev th payload)))
          skip-KeepsSound)

  dispatch-KeepsSound :
      (dev : ℕ) (buffer : List ℕ) (len : ℕ) → KeepsSound (dispatch env fuel dev buffer len)
  unfolding dispatch
  dispatch-KeepsSound dev buffer len =
      >>=-KeepsSound (load_device dev) _ (load_device-KeepsSound dev) (λ d.
        if-KeepsSound (length_field buffer == len) _ _
          (>>=-KeepsSound
            (store_device dev
              (if ltb d.version 2 then d else record d { rx_seq = be16_at buffer 14 }))
            _ (store_device-KeepsSound dev _)
            (λ _.
              if-KeepsSound (be32_at buffer 0 == 0) _ _
                (if-KeepsSound (ltb len (mux_header_size d.version + version_header_size)) _ _
                  skip-KeepsSound
                  (device_version_input-KeepsSound env dev
                    (drop (mux_header_size d.version) buffer)))
                (if-KeepsSound (be32_at buffer 0 == 1) _ _ skip-KeepsSound (
                  if-KeepsSound (be32_at buffer 0 == 6) _ _
                    (if-KeepsSound (ltb len (mux_header_size d.version + tcphdr_size)) _ _
                      skip-KeepsSound
                      (device_tcp_input-KeepsSound dev
                        (tcp_header_of (drop (mux_header_size d.version) buffer))
                        (take (len - tcphdr_size - mux_header_size d.version)
                          (drop (mux_header_size d.version + tcphdr_size) buffer))))
                    skip-KeepsSound))))
          skip-KeepsSound)

  gathered-KeepsSound : (dev : ℕ) (g : Gathered) → KeepsSound (gathered env fuel dev g)
  unfolding gathered
  gathered-KeepsSound dev (dropped d) = store_device-KeepsSound dev d
  gathered-KeepsSound dev (waiting d) = store_device-KeepsSound dev d
  gathered-KeepsSound dev (packet d buffer len) =
      >>=-KeepsSound (store_device dev d) _ (store_device-KeepsSound dev d)
        (λ _. dispatch-KeepsSound dev buffer len)

  -- The transfer for the device that was found.
  for_device : List ℕ → ℕ → ℕ → M (Unit {0})
  for_device buffer len dev =
      if len == 0 || ltb usb_mru len || ltb dev_mru len
      then skip
      else (do d ← load_device dev; gathered env fuel dev (gather d buffer len))

  for_device-KeepsSound : (buffer : List ℕ) (len dev : ℕ) → KeepsSound (for_device buffer len dev)
  unfolding for_device
  for_device-KeepsSound buffer len dev =
      if-KeepsSound (len == 0 || ltb usb_mru len || ltb dev_mru len) _ _ skip-KeepsSound (
        >>=-KeepsSound (load_device dev) _ (load_device-KeepsSound dev)
          (λ d. gathered-KeepsSound dev (gather d buffer len)))

  -- Whatever a transfer from a device holds and leads to, if no freed memory is used on the way:
  -- where the buffers of every client were there as its state needs them, they are so afterwards.
  pub device_data_input-AllSound :
      (usbdev : ℕ) (buffer : List ℕ) (len : ℕ) (w w' : World)
      → AllSound w
      → device_data_input env fuel usbdev buffer len w ≡ done tt w'
      → AllSound w'
  unfolding device_data_input for_device
  device_data_input-AllSound usbdev buffer len w w' v e =
      >>=-KeepsSound (first_device (λ d. d.usbdev == usbdev) w.device_list) _
        (untouched-KeepsSound (first_device (λ d. d.usbdev == usbdev) w.device_list)
          (first_device-Untouched (λ d. d.usbdev == usbdev) w.device_list))
        (λ found. optional-KeepsSound found _ (for_device-KeepsSound buffer len)) tt w w' v e

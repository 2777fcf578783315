-- ===== src/Device/Input/Sound/Segment.antt =====
-- A segment or a version packet keeps the buffers of every client (src/device.c).
use usbmuxd_win_mce.Base.{
  ℕ, ◌||◌, none, some, List, [], ◌∷◌, is_neg, ltb, ◌==◌, be32_at, arith, if◌then◌else◌,
}
use usbmuxd_win_mce.State.{MuxDevice, MuxDevState, MuxConnState}
use usbmuxd_win_mce.State.Monad.{
  M, skip, when, modify, deref, ◌>>=◌, ◌>>◌, load_conn, store_conn, load_device, store_device,
  load_usb, free_device,
}
use usbmuxd_win_mce.Env.{Env}
use usbmuxd_win_mce.Wire.{MuxProtocol, th_ack, has_rst, TcpHeader}
use usbmuxd_win_mce.Client.Output.{result_ok}
use usbmuxd_win_mce.Client.Socket.{client_notify_connect}
use usbmuxd_win_mce.Client.Socket.Sound.{
  KeepsSound, >>=-KeepsSound, untouched-KeepsSound, if-KeepsSound, client_notify_connect-KeepsSound,
}
use usbmuxd_win_mce.Client.Broadcast.Sound.{preflight_worker_device_add-KeepsSound}
use usbmuxd_win_mce.Device.Packet.{send_packet, send_tcp}
use usbmuxd_win_mce.Device.Info.{info_of}
use usbmuxd_win_mce.Device.Teardown.{connection_teardown}
use usbmuxd_win_mce.Device.Teardown.Untouched.{
  send_packet-Untouched, load_device-Untouched, store_device-Untouched, load_usb-Untouched,
}
use usbmuxd_win_mce.Device.Teardown.Sound.{
  skip-KeepsSound, load_conn-KeepsSound, store_conn-KeepsSound, connection_teardown-KeepsSound,
}
use usbmuxd_win_mce.Device.Transfer.{connection_device_input, send_tcp_ack}
use usbmuxd_win_mce.Device.Transfer.Sound.{
  deref-KeepsSound, send_tcp-KeepsSound, update_connection-KeepsSound,
  connection_device_input-KeepsSound, send_tcp_ack-KeepsSound,
}
use usbmuxd_win_mce.Device.Input.{
  is_init, synchronised, received, with_state, activate, device_version_input, handshake,
  end_by_device, segment_input,
}

pub load_device-KeepsSound : (dev : ℕ) → KeepsSound (load_device dev)
load_device-KeepsSound dev = untouched-KeepsSound (load_device dev) (load_device-Untouched dev)

pub store_device-KeepsSound : (dev : ℕ) (d : MuxDevice) → KeepsSound (store_device dev d)
store_device-KeepsSound dev d =
    untouched-KeepsSound (store_device dev d) (store_device-Untouched dev d)

load_usb-KeepsSound : (usbdev : ℕ) → KeepsSound (load_usb usbdev)
load_usb-KeepsSound usbdev = untouched-KeepsSound (load_usb usbdev) (load_usb-Untouched usbdev)

module _ (env : Env) where
  pub send_packet-KeepsSound :
      (dev : ℕ) (proto : MuxProtocol) (header payload : List ℕ)
      → KeepsSound (send_packet env dev proto header payload)
  send_packet-KeepsSound dev proto header payload =
      untouched-KeepsSound (send_packet env dev proto header payload)
        (send_packet-Untouched env dev proto header payload)

  activate-KeepsSound : (dev major : ℕ) → KeepsSound (activate env dev major)
  unfolding activate
  activate-KeepsSound dev major =
      >>=-KeepsSound (load_device dev) _ (load_device-KeepsSound dev) (λ d.
        >>=-KeepsSound (store_device dev (record d { version = major })) _
          (store_device-KeepsSound dev _)
          (λ _.
            >>=-KeepsSound set_up _
              (if-KeepsSound (ltb major 2) _ _ skip-KeepsSound (
                >>=-KeepsSound (send_packet env dev MuxProtocol.setup [] (7 ∷ [])) _
                  (send_packet-KeepsSound dev MuxProtocol.setup [] (7 ∷ []))
                  (λ _. skip-KeepsSound)))
              (λ _. >>=-KeepsSound (load_device dev) _ (load_device-KeepsSound dev) (λ d'.
                >>=-KeepsSound (load_usb d'.usbdev) _ (load_usb-KeepsSound d'.usbdev) (λ u.
                  >>=-KeepsSound
                    (store_device dev
                      (record d' { state = MuxDevState.active; connections = some [] }))
                    _ (store_device-KeepsSound dev _)
                    (λ _. preflight_worker_device_add-KeepsSound env (info_of d' u)))))))
    where
      set_up : M (Unit {0})
      set_up =
          if ltb major 2
          then skip
          else (do _ ← send_packet env dev MuxProtocol.setup [] (7 ∷ []); skip)

  pub device_version_input-KeepsSound :
      (dev : ℕ) (vh : List ℕ) → KeepsSound (device_version_input env dev vh)
  unfolding device_version_input
  device_version_input-KeepsSound dev vh =
      >>=-KeepsSound (load_device dev) _ (load_device-KeepsSound dev) (λ d.
        if-KeepsSound (is_init d.state) _ _
          (if-KeepsSound (be32_at vh 0 == 2 || be32_at vh 0 == 1) _ _
            (activate-KeepsSound dev (be32_at vh 0))
            (>>=-KeepsSound delist _ (untouched-KeepsSound delist (λ r w w' e. ground arith))
              (λ _. untouched-KeepsSound (free_device dev) (λ r w w' e. ground arith))))
          skip-KeepsSound)
    where
      delist : M (Unit {0})
      delist = modify (λ w. record w { device_list = env.collection_remove w.device_list dev })

  module _ (fuel : ℕ) where
    handshake-KeepsSound : (conn : ℕ) → KeepsSound (handshake env fuel conn)
    unfolding handshake
    handshake-KeepsSound conn = >>=-KeepsSound (load_conn conn) _ (load_conn-KeepsSound conn) (λ c.
        >>=-KeepsSound (store_conn conn (synchronised c)) _ (store_conn-KeepsSound conn _) (λ _.
          >>=-KeepsSound (send_tcp env conn th_ack []) _
            (send_tcp-KeepsSound env fuel conn th_ack [])
            (λ res. if-KeepsSound (is_neg res) _ _ (connection_teardown-KeepsSound env fuel conn) (
              >>=-KeepsSound (load_conn conn) _ (load_conn-KeepsSound conn) (λ c'.
                >>=-KeepsSound (store_conn conn (with_state c' MuxConnState.connected)) _
                  (store_conn-KeepsSound conn _)
                  (λ _. >>=-KeepsSound (deref c'.client) _ (deref-KeepsSound c'.client) (λ client.
                    >>=-KeepsSound (client_notify_connect env client result_ok) _
                      (client_notify_connect-KeepsSound env client result_ok)
                      (λ told.
                        >>=-KeepsSound (when (is_neg told) untold) _
                          (if-KeepsSound (is_neg told) untold skip untold-KeepsSound
                            skip-KeepsSound)
                          (λ _. update_connection-KeepsSound conn)))))))))
      where
        untold : M (Unit {0})
        untold = do
          c'' ← load_conn conn
          store_conn conn (record c'' { client = none })
          connection_teardown env fuel conn

        untold-KeepsSound : KeepsSound untold
        untold-KeepsSound = >>=-KeepsSound (load_conn conn) _ (load_conn-KeepsSound conn) (λ c.
            >>=-KeepsSound (store_conn conn (record c { client = none })) _
              (store_conn-KeepsSound conn _) (λ _. connection_teardown-KeepsSound env fuel conn))

    end_by_device-KeepsSound :
        (conn flags : ℕ) (reset : MuxConnState)
        → KeepsSound (end_by_device env fuel conn flags reset)
    unfolding end_by_device
    end_by_device-KeepsSound conn flags reset =
        >>=-KeepsSound (load_conn conn) _ (load_conn-KeepsSound conn) (λ c.
          >>=-KeepsSound (store_conn conn (if has_rst flags then with_state c reset else c)) _
            (store_conn-KeepsSound conn _) (λ _. connection_teardown-KeepsSound env fuel conn))

    -- What a segment does in each state of its connection.
    by_state : ℕ → TcpHeader → List ℕ → MuxConnState → M (Unit {0})
    by_state conn th payload s = elim s [
      | MuxConnState.connecting ↦
          if th.th_flags == 18
          then handshake env fuel conn
          else end_by_device env fuel conn th.th_flags MuxConnState.refused
      | MuxConnState.connected ↦
          if th.th_flags == th_ack
          then (do
            connection_device_input env fuel conn payload
            _ ← send_tcp_ack env fuel conn
            skip)
          else end_by_device env fuel conn th.th_flags MuxConnState.dying
      | _ ↦ skip
    ]

    by_state-KeepsSound :
        (conn : ℕ) (th : TcpHeader) (payload : List ℕ) (s : MuxConnState)
        → KeepsSound (by_state conn th payload s)
    unfolding by_state
    by_state-KeepsSound conn th payload MuxConnState.connecting =
        if-KeepsSound (th.th_flags == 18) _ _ (handshake-KeepsSound conn)
          (end_by_device-KeepsSound conn th.th_flags MuxConnState.refused)
    by_state-KeepsSound conn th payload MuxConnState.connected =
        if-KeepsSound (th.th_flags == th_ack) _ _
          (>>=-KeepsSound (connection_device_input env fuel conn payload) _
            (connection_device_input-KeepsSound env fuel conn payload)
            (λ _.
              >>=-KeepsSound (send_tcp_ack env fuel conn) _ (send_tcp_ack-KeepsSound env fuel conn)
                (λ _. skip-KeepsSound)))
          (end_by_device-KeepsSound conn th.th_flags MuxConnState.dying)
    by_state-KeepsSound conn th payload MuxConnState.refused = skip-KeepsSound
    by_state-KeepsSound conn th payload MuxConnState.dying = skip-KeepsSound
    by_state-KeepsSound conn th payload MuxConnState.dead = skip-KeepsSound

    pub segment_input-KeepsSound :
        (conn : ℕ) (th : TcpHeader) (payload : List ℕ)
        → KeepsSound (segment_input env fuel conn th payload)
    unfolding segment_input by_state
    segment_input-KeepsSound conn th payload =
        >>=-KeepsSound (load_conn conn) _ (load_conn-KeepsSound conn) (λ c.
          >>=-KeepsSound (store_conn conn (received c th)) _ (store_conn-KeepsSound conn _)
            (λ _. by_state-KeepsSound conn th payload c.state))

-- ===== src/Device/Input/Faults.antt =====
-- Uses of freed memory on the receiving path of src/device.c.
use usbmuxd_win_mce.Base.{ℕ, ◌≡◌, List, [], true, false, none, some, arith, pos, negsuc}
use usbmuxd_win_mce.State.{World, MuxConnection, MuxConnState}
use usbmuxd_win_mce.State.Monad.{done, fault, put, ◌>>=◌, skip}
use usbmuxd_win_mce.State.Monad.Runs.{fault_after}
use usbmuxd_win_mce.Env.{Env}
use usbmuxd_win_mce.Wire.{TcpHeader, th_ack}
use usbmuxd_win_mce.Client.Output.{result_ok}
use usbmuxd_win_mce.Client.Socket.{client_notify_connect}
use usbmuxd_win_mce.Device.Packet.{send_tcp}
use usbmuxd_win_mce.Device.Window.{update_connection}
use usbmuxd_win_mce.Device.Teardown.{connection_teardown, teardown_with, is_conn_dead}
use usbmuxd_win_mce.Device.Transfer.{connection_device_input, send_tcp_ack, overflows}
use usbmuxd_win_mce.Device.Input.{segment_input, handshake, received, synchronised, with_state}

module _ (env : Env) (fuel : ℕ) where
  teardown_frees :
      (conn : ℕ) (c : MuxConnection) (w w' : World)
      → w.conns conn ≡ some c
      → is_conn_dead c.state ≡ false
      → connection_teardown env fuel conn w ≡ done tt w'
      → w'.conns conn ≡ none
  unfolding connection_teardown teardown_with
  teardown_frees conn c w w' h live e = ground arith

  send_tcp_ack_freed :
      (conn : ℕ) (w : World)
      → w.conns conn ≡ none
      → (send_tcp_ack env fuel conn >>= λ _. skip) w ≡ fault
  unfolding send_tcp_ack send_tcp
  send_tcp_ack_freed conn w h = ground arith

  -- A segment that does not fit the in-buffer of a connected connection tears the connection down,
  -- and the acknowledgement that follows uses it after it was freed.
  pub segment_input_overflow :
      (conn : ℕ) (c : MuxConnection) (th : TcpHeader) (payload : List ℕ) (w : World)
      → w.conns conn ≡ some c
      → c.state ≡ MuxConnState.connected
      → th.th_flags ≡ th_ack
      → overflows c payload ≡ true
      → segment_input env fuel conn th payload w ≡ fault
  unfolding segment_input received connection_device_input
  segment_input_overflow conn c th payload w h s f o = ground (
    arith,
    fault_after (connection_teardown env fuel conn) (send_tcp_ack env fuel conn >>= λ _. skip)
        (record w { conns = put w.conns conn (some (received c th)) })
        λ w' e.
          send_tcp_ack_freed conn w'
            (teardown_frees conn (received c th) _ w' (ground arith) (ground arith) e),
  )

  update_connection_freed :
      (conn : ℕ) (w : World) → w.conns conn ≡ none → update_connection conn w ≡ fault
  unfolding update_connection
  update_connection_freed conn w h = ground arith

  -- A SYN/ACK that is acknowledged, for a connection whose client cannot be told, tears the
  -- connection down, and the update that follows uses it after it was freed.
  pub handshake_untold :
      (conn client k : ℕ) (n : ℕ) (c c₂ c₄ : MuxConnection) (w w₂ w₄ : World)
      → w.conns conn ≡ some c
      → send_tcp env conn th_ack [] (record w { conns = put w.conns conn (some (synchronised c)) })
        ≡ done (pos n) w₂
      → w₂.conns conn ≡ some c₂
      → c₂.client ≡ some client
      → client_notify_connect env client result_ok
          (record w₂ { conns = put w₂.conns conn (some (with_state c₂ MuxConnState.connected)) })
        ≡ done (negsuc k) w₄
      → w₄.conns conn ≡ some c₄
      → is_conn_dead c₄.state ≡ false
      → handshake env fuel conn w ≡ fault
  unfolding handshake
  handshake_untold conn client k n c c₂ c₄ w w₂ w₄ h s h₂ l t h₄ live = ground (
    arith,
    fault_after (connection_teardown env fuel conn) (update_connection conn)
        (record w₄ { conns = put w₄.conns conn (some (record c₄ { client = none })) })
        λ w' e.
          update_connection_freed conn w' (
            teardown_frees conn (record c₄ { client = none }) _ w' (ground arith) (ground arith) e),
  )

-- ===== src/Device/Transfer/Sound.antt =====
-- The transfer between a client and its connection keeps the buffers of every client (src/device.c).
use usbmuxd_win_mce.Base.{
  ℕ, ◌≡◌, zero, suc, Bool, true, false, ◌&&◌, Option, none, some, List, [], ◌∷◌, ℤ, pos, negsuc,
  neg, is_neg, ltb, length, arith,
}
use usbmuxd_win_mce.State.{World, Events, MuxConnection}
use usbmuxd_win_mce.State.Monad.{M, done, pure, deref, ◌>>◌, load_conn, store_conn}
use usbmuxd_win_mce.Env.{Env}
use usbmuxd_win_mce.Wire.{th_ack}
use usbmuxd_win_mce.Client.Socket.{client_write, client_read}
use usbmuxd_win_mce.Client.Socket.Sound.{
  KeepsSound, AllSound, >>=-KeepsSound, untouched-KeepsSound, if-KeepsSound,
  client_set_events-KeepsSound,
}
use usbmuxd_win_mce.Device.Packet.{send_tcp}
use usbmuxd_win_mce.Device.Lookup.{get_mux_connection}
use usbmuxd_win_mce.Device.Teardown.{connection_teardown}
use usbmuxd_win_mce.Device.Teardown.Untouched.{
  pure-Untouched, send_tcp-Untouched, client_write-Untouched, deref-Untouched,
  get_mux_connection-Untouched,
}
use usbmuxd_win_mce.Device.Teardown.Sound.{
  skip-KeepsSound, optional-KeepsSound, load_conn-KeepsSound, store_conn-KeepsSound,
  connection_teardown-KeepsSound,
}
use usbmuxd_win_mce.Device.Window.{update_connection, refreshed}
use usbmuxd_win_mce.Device.Transfer.{
  drained, fed, buffered, overflows, drain_to_client, feed_segment, feed_to_device,
  device_client_process, send_tcp_ack, connection_device_input,
}

pub pure-KeepsSound : {A : Type 0} (a : A) → KeepsSound (pure a)
pure-KeepsSound a = untouched-KeepsSound (pure a) (pure-Untouched a)

pub deref-KeepsSound : {A : Type 0} (o : Option A) → KeepsSound (deref o)
deref-KeepsSound o = untouched-KeepsSound (deref o) (deref-Untouched o)

pub update_connection-KeepsSound : (conn : ℕ) → KeepsSound (update_connection conn)
unfolding update_connection
update_connection-KeepsSound conn =
    >>=-KeepsSound (load_conn conn) _ (load_conn-KeepsSound conn) (λ c.
      >>=-KeepsSound (store_conn conn (refreshed c)) _ (store_conn-KeepsSound conn (refreshed c))
        (λ _. client_set_events-KeepsSound c.client (refreshed c).events))

module _ (env : Env) (fuel : ℕ) where
  teardown_then :
      (conn : ℕ) → {A : Type 0} (a : A) → KeepsSound (connection_teardown env fuel conn >> pure a)
  teardown_then conn a =
      >>=-KeepsSound (connection_teardown env fuel conn) _
        (connection_teardown-KeepsSound env fuel conn) (λ _. pure-KeepsSound a)

  pub send_tcp-KeepsSound :
      (conn flags : ℕ) (payload : List ℕ) → KeepsSound (send_tcp env conn flags payload)
  send_tcp-KeepsSound conn flags payload =
      untouched-KeepsSound (send_tcp env conn flags payload)
        (send_tcp-Untouched env conn flags payload)

  -- What follows the write of `size` bytes to the client.
  drain_end : ℕ → MuxConnection → ℤ → M Bool
  drain_end conn c size = elim size [
    | pos (suc n) ↦ do store_conn conn (drained c (suc n)); pure true
    | _ ↦ do connection_teardown env fuel conn; pure false
  ]

  drain_end-KeepsSound :
      (conn : ℕ) (c : MuxConnection) (size : ℤ) → KeepsSound (drain_end conn c size)
  unfolding drain_end
  drain_end-KeepsSound conn c (pos zero) = teardown_then conn false
  drain_end-KeepsSound conn c (pos (suc n)) =
      >>=-KeepsSound (store_conn conn (drained c (suc n))) _ (store_conn-KeepsSound conn _)
        (λ _. pure-KeepsSound true)
  drain_end-KeepsSound conn c (negsuc n) = teardown_then conn false

  drain_to_client-KeepsSound :
      (conn : ℕ) (events : Events) → KeepsSound (drain_to_client env fuel conn events)
  unfolding drain_to_client drain_end
  drain_to_client-KeepsSound conn events =
      >>=-KeepsSound (load_conn conn) _ (load_conn-KeepsSound conn) (λ c.
        if-KeepsSound (events.pollout && ltb 0 (length c.ib_buf)) _ _
          (>>=-KeepsSound (deref c.client) _ (deref-KeepsSound c.client) (λ client.
            >>=-KeepsSound (client_write env client c.ib_buf) (drain_end conn c)
              (untouched-KeepsSound (client_write env client c.ib_buf)
                (client_write-Untouched env client c.ib_buf))
              (drain_end-KeepsSound conn c)))
          (pure-KeepsSound true))

  feed_segment-KeepsSound :
      (conn : ℕ) (bytes : List ℕ) → KeepsSound (feed_segment env fuel conn bytes)
  unfolding feed_segment
  feed_segment-KeepsSound conn bytes =
      >>=-KeepsSound (send_tcp env conn th_ack bytes) _ (send_tcp-KeepsSound conn th_ack bytes)
        (λ res. if-KeepsSound (is_neg res) _ _ (teardown_then conn false) (
          >>=-KeepsSound (load_conn conn) _ (load_conn-KeepsSound conn) (λ c.
            >>=-KeepsSound (store_conn conn (fed c (length bytes))) _ (store_conn-KeepsSound conn _)
              (λ _. pure-KeepsSound true))))

  feed_end : ℕ → Option (List ℕ) → M Bool
  feed_end conn got = elim got [
    | some (b ∷ bs) ↦ feed_segment env fuel conn (b ∷ bs)
    | _ ↦ do connection_teardown env fuel conn; pure false
  ]

  feed_end-KeepsSound : (conn : ℕ) (got : Option (List ℕ)) → KeepsSound (feed_end conn got)
  unfolding feed_end
  feed_end-KeepsSound conn none = teardown_then conn false
  feed_end-KeepsSound conn (some []) = teardown_then conn false
  feed_end-KeepsSound conn (some (b ∷ bs)) = feed_segment-KeepsSound conn (b ∷ bs)

  client_read-KeepsSound : (client len : ℕ) → KeepsSound (client_read env client len)
  unfolding client_read
  client_read-KeepsSound client len =
      untouched-KeepsSound (client_read env client len) (λ r w w' e. ground arith)

  feed_to_device-KeepsSound :
      (conn : ℕ) (events : Events) → KeepsSound (feed_to_device env fuel conn events)
  unfolding feed_to_device feed_end
  feed_to_device-KeepsSound conn events =
      >>=-KeepsSound (load_conn conn) _ (load_conn-KeepsSound conn) (λ c.
        if-KeepsSound (events.pollin && ltb 0 c.sendable) _ _
          (>>=-KeepsSound (deref c.client) _ (deref-KeepsSound c.client) (λ client.
            >>=-KeepsSound (client_read env client c.sendable) (feed_end conn)
              (client_read-KeepsSound client c.sendable) (feed_end-KeepsSound conn)))
          (pure-KeepsSound true))

  pub device_client_process-KeepsSound :
      (device_id client : ℕ) (events : Events)
      → KeepsSound (device_client_process env fuel device_id client events)
  unfolding device_client_process
  device_client_process-KeepsSound device_id client events =
      >>=-KeepsSound (get_mux_connection device_id client) _
        (untouched-KeepsSound (get_mux_connection device_id client)
          (get_mux_connection-Untouched device_id client))
        (λ found. optional-KeepsSound found _ (λ conn.
          >>=-KeepsSound (drain_to_client env fuel conn events) _
            (drain_to_client-KeepsSound conn events)
            (λ kept.
              if-KeepsSound kept _ _
                (>>=-KeepsSound (feed_to_device env fuel conn events) _
                  (feed_to_device-KeepsSound conn events)
                  (λ more.
                    if-KeepsSound more _ _ (update_connection-KeepsSound conn) skip-KeepsSound))
                skip-KeepsSound)))

  -- Where the buffers of every client were there as its state needs them, they are so after the events
  -- of a client that is connected: what it sends, what it is sent, and the teardown where that fails.
  pub device_client_process-AllSound :
      (device_id client : ℕ) (events : Events) (w w' : World)
      → AllSound w
      → device_client_process env fuel device_id client events w ≡ done tt w'
      → AllSound w'
  device_client_process-AllSound device_id client events w w' v e =
      device_client_process-KeepsSound device_id client events tt w w' v e

  pub send_tcp_ack-KeepsSound : (conn : ℕ) → KeepsSound (send_tcp_ack env fuel conn)
  unfolding send_tcp_ack
  send_tcp_ack-KeepsSound conn =
      >>=-KeepsSound (send_tcp env conn th_ack []) _ (send_tcp-KeepsSound conn th_ack []) (λ res.
        if-KeepsSound (is_neg res) _ _ (teardown_then conn (neg 1)) (
          >>=-KeepsSound (update_connection conn) _ (update_connection-KeepsSound conn)
            (λ _. pure-KeepsSound (pos 0))))

  pub connection_device_input-KeepsSound :
      (conn : ℕ) (payload : List ℕ) → KeepsSound (connection_device_input env fuel conn payload)
  unfolding connection_device_input
  connection_device_input-KeepsSound conn payload =
      >>=-KeepsSound (load_conn conn) _ (load_conn-KeepsSound conn) (λ c.
        if-KeepsSound (overflows c payload) _ _ (connection_teardown-KeepsSound env fuel conn) (
          >>=-KeepsSound (store_conn conn (buffered c payload)) _ (store_conn-KeepsSound conn _)
            (λ _. update_connection-KeepsSound conn)))

-- ===== src/Device/Transfer.antt =====
-- Data between a client and its device: `device_client_process`, `connection_device_input` and
-- `send_tcp_ack` of src/device.c.
pub mod Sound
use usbmuxd_win_mce.Base.{
  ℕ, suc, Bool, true, false, ◌&&◌, none, some, List, [], ◌∷◌, ◌++◌, ℤ, pos, neg, is_neg, drop,
  length, ltb, if◌then◌else◌, add32,
}
use usbmuxd_win_mce.State.{MuxConnection, Events}
use usbmuxd_win_mce.State.Monad.{M, pure, ◌>>=◌, ◌>>◌, skip, deref, load_conn, store_conn}
use usbmuxd_win_mce.Env.{Env}
use usbmuxd_win_mce.Wire.{th_ack}
use usbmuxd_win_mce.Client.Socket.{client_read, client_write}
use usbmuxd_win_mce.Device.Packet.{send_tcp}
use usbmuxd_win_mce.Device.Window.{update_connection}
use usbmuxd_win_mce.Device.Lookup.{get_mux_connection}
use usbmuxd_win_mce.Device.Teardown.{connection_teardown}

-- `n` bytes of the in-buffer went to the client: they are acknowledged to the device.
unfoldable pub drained : MuxConnection → ℕ → MuxConnection
drained c n = record c { tx_ack = add32 c.tx_ack n; ib_buf = drop n c.ib_buf }

-- `n` bytes went to the device.
unfoldable pub fed : MuxConnection → ℕ → MuxConnection
fed c n = record c { tx_seq = add32 c.tx_seq n }

-- A payload from the device is put behind what is buffered.
unfoldable pub buffered : MuxConnection → List ℕ → MuxConnection
buffered c payload = record c {
  ib_buf = c.ib_buf ++ payload;
  rx_recvd = add32 c.rx_recvd (length payload);
}

abbrev pub overflows : MuxConnection → List ℕ → Bool
overflows c payload = ltb c.ib_capacity (add32 (length c.ib_buf) (length payload))

module _ (env : Env) (fuel : ℕ) where
  -- The result says whether the connection is still there.
  unfoldable pub drain_to_client : ℕ → Events → M Bool
  unfolding drained
  drain_to_client conn events = do
    c ← load_conn conn
    if events.pollout && ltb 0 (length c.ib_buf)
        then (do
          client ← deref c.client
          size ← client_write env client c.ib_buf
          elim size [
            | pos (suc n) ↦ do store_conn conn (drained c (suc n)); pure true
            | _ ↦ do connection_teardown env fuel conn; pure false
          ])
        else pure true

  -- The bytes that were read go to the device in one segment.
  unfoldable pub feed_segment : ℕ → List ℕ → M Bool
  unfolding fed
  feed_segment conn bytes = do
    res ← send_tcp env conn th_ack bytes
    if is_neg res
        then (do connection_teardown env fuel conn; pure false)
        else (do c ← load_conn conn; store_conn conn (fed c (length bytes)); pure true)

  unfoldable pub feed_to_device : ℕ → Events → M Bool
  unfolding feed_segment
  feed_to_device conn events = do
    c ← load_conn conn
    if events.pollin && ltb 0 c.sendable
        then (do
          client ← deref c.client
          got ← client_read env client c.sendable
          elim got [
            | some (b ∷ bs) ↦ feed_segment conn (b ∷ bs)
            | _ ↦ do connection_teardown env fuel conn; pure false
          ])
        else pure true

  unfoldable pub device_client_process : ℕ → ℕ → Events → M (Unit {0})
  unfolding drain_to_client feed_to_device
  device_client_process device_id client events = do
    found ← get_mux_connection device_id client
    elim found [
      | none ↦ skip
      | some conn ↦ do
        kept ← drain_to_client conn events
        if kept
            then (do
              kept' ← feed_to_device conn events
              if kept' then update_connection conn else skip)
            else skip
    ]

  unfoldable pub send_tcp_ack : ℕ → M ℤ
  send_tcp_ack conn = do
    res ← send_tcp env conn th_ack []
    if is_neg res
        then (do connection_teardown env fuel conn; pure (neg 1))
        else (do update_connection conn; pure (pos 0))

  unfoldable pub connection_device_input : ℕ → List ℕ → M (Unit {0})
  unfolding buffered
  connection_device_input conn payload = do
    c ← load_conn conn
    if overflows c payload
        then connection_teardown env fuel conn
        else (do store_conn conn (buffered c payload); update_connection conn)

-- ===== src/Device/Window.antt =====
-- `update_connection` of src/device.c: what may be sent, and which events the client waits for.
pub mod Bounds
use usbmuxd_win_mce.Base.{
  ℕ, ◌-◌, ◌<◌, Bool, true, false, not, List, length, ltb, ◌==◌, if◌then◌else◌, sub32, min,
}
use usbmuxd_win_mce.State.{MuxConnection, Events}
use usbmuxd_win_mce.State.Monad.{M, pure, ◌>>=◌, ◌>>◌, load_conn, store_conn}
use usbmuxd_win_mce.Client.Socket.{client_set_events}

-- `if (sendable > cap) sendable = cap;`
abbrev pub cap_at : ℕ → ℕ → ℕ
cap_at cap n = if ltb cap n then cap else n

-- Bytes sent to the device that it has not acknowledged.
abbrev pub in_flight : MuxConnection → ℕ
in_flight c = sub32 c.tx_seq c.rx_ack

abbrev pub window_left : MuxConnection → ℕ
window_left c = if ltb (in_flight c) c.rx_win then c.rx_win - in_flight c else 0

unfoldable pub sendable_of : MuxConnection → ℕ
sendable_of c = cap_at c.max_payload (cap_at c.ob_capacity (window_left c))

-- The connection with its flags and masks brought up to date.
unfoldable pub refreshed : MuxConnection → MuxConnection
unfolding sendable_of
refreshed c = record c {
  sendable = sendable_of c;
  events = record {
    pollin = ltb 0 (sendable_of c);
    pollout = if length c.ib_buf == 0 then false else true;
  };
  ack_pending = if c.tx_acked == c.tx_ack then false else true;
}

unfoldable pub update_connection : ℕ → M (Unit {0})
unfolding refreshed client_set_events
update_connection conn = do
  c ← load_conn conn
  let c' = refreshed c
  store_conn conn c'
  client_set_events c.client c'.events

-- ===== src/Device/Window/Bounds.antt =====
-- The send window of a connection (`update_connection` of src/device.c).
use usbmuxd_win_mce.Base.{◌+◌, ◌≤◌, ◌<◌, ◌≡◌, ◌↔◌, ◌⊎◌, true, false, arith, length, sub32}
use usbmuxd_win_mce.State.{MuxConnection}
use usbmuxd_win_mce.Device.Window.{sendable_of, refreshed, in_flight}

-- What may be sent next fits the buffer and one packet, and with what is in flight it does not
-- exceed the window that the device offers unless that is exceeded already.
pub sendable_bounds :
    (c : MuxConnection)
    → (sendable_of c ≤ c.max_payload)
      × (sendable_of c ≤ c.ob_capacity)
      × ((sendable_of c ≡ 0) ⊎ (in_flight c + sendable_of c ≤ c.rx_win))
unfolding sendable_of
sendable_bounds c = ground arith

-- The flags of an updated connection: it reads from the client exactly when something may be sent,
-- writes exactly when bytes are buffered, owes an acknowledgement exactly when the last one is out
-- of date; and what may be sent fits one packet, the buffer, and with the bytes in flight the
-- window that the device offers, and is not less than the smallest of the three.
pub record IsRefreshed (c r : MuxConnection) : Type 0 where
  pub reads : (r.events.pollin ≡ true) ↔ (0 < r.sendable)
  pub writes : (r.events.pollout ≡ true) ↔ (0 < length c.ib_buf)
  pub owes : (r.ack_pending ≡ false) ↔ (c.tx_acked ≡ c.tx_ack)
  pub one_packet : r.sendable ≤ c.max_payload
  pub in_buffer : r.sendable ≤ c.ob_capacity
  pub in_window : (r.sendable ≡ 0) ⊎ (sub32 c.tx_seq c.rx_ack + r.sendable ≤ c.rx_win)
  pub tight :
      (r.sendable ≡ c.max_payload)
      ⊎ ((r.sendable ≡ c.ob_capacity)
          ⊎ ((sub32 c.tx_seq c.rx_ack + r.sendable ≡ c.rx_win)
              ⊎ ((r.sendable ≡ 0) × (c.rx_win ≤ sub32 c.tx_seq c.rx_ack))))
  pub keeps : r.ib_buf ≡ c.ib_buf

-- The connection that `update_connection` stores has its flags, and what may be sent, set in accord
-- with its counters and buffers: no more may be sent than fits one packet, the buffer, and the window
-- less the bytes in flight (nothing, where they fill it), and exactly the smallest of these.
pub refreshed-IsRefreshed : (c : MuxConnection) → IsRefreshed c (refreshed c)
unfolding refreshed sendable_of
refreshed-IsRefreshed c = ground arith

-- ===== src/Device/Connect.antt =====
-- The start of a connection: `find_sport`, `get_next_device_id` and `device_start_connect` of
-- src/device.c, over the state.
pub mod Opened
use usbmuxd_win_mce.Base.{
  ℕ, suc, ◌+◌, ◌-◌, Bool, true, false, Option, none, some, List, [], ◌∷◌, ℤ, pos, neg, is_neg, map,
  length, ◌==◌, if◌then◌else◌,
}
use usbmuxd_win_mce.State.{World, MuxDevice, MuxConnection, MuxConnState}
use usbmuxd_win_mce.State.Monad.{
  M, pure, maybe, ◌>>=◌, ◌>>◌, get, modify, deref, alloc, load_device, store_device, store_conn,
}
use usbmuxd_win_mce.Env.{Env}
use usbmuxd_win_mce.Wire.{usb_mtu, mux_header_full_size, tcphdr_size, th_syn}
use usbmuxd_win_mce.Client.Output.{result_baddev, result_connrefused}
use usbmuxd_win_mce.Device.Ports.{find_sport_in, next_device_id_from}
use usbmuxd_win_mce.Device.Lookup.{get_mux_device_for_id, load_conns, load_devices}
use usbmuxd_win_mce.Device.Packet.{send_segment}

abbrev pub conn_outbuf_size : ℕ
conn_outbuf_size = 65536

abbrev pub conn_inbuf_size : ℕ
conn_inbuf_size = 262144

abbrev pub sports_of : List MuxConnection → List ℕ
sports_of = map λ c. c.sport

abbrev pub ids_of : List MuxDevice → List ℕ
ids_of = map λ d. d.id

-- The connections of a device that is not yet active are not initialised: reading them is a fault.
unfoldable pub find_sport : ℕ → M ℕ
find_sport dev = do
  d ← load_device dev
  ps ← deref d.connections
  cs ← load_conns ps
  (sport, next) ← deref (find_sport_in 65536 (sports_of cs) d.next_sport)
  store_device dev (record d { next_sport = next })
  pure sport

unfoldable pub get_next_device_id : M ℕ
get_next_device_id = do
  l ← get (λ w. w.device_list)
  ds ← load_devices l
  start ← get (λ w. w.next_device_id)
  id ← deref (next_device_id_from (suc (length ds)) (ids_of ds) start)
  modify (λ w. record w { next_device_id = id + 1 })
  pure id

-- The connection that `device_start_connect` fills in.
abbrev pub new_connection : ℕ → ℕ → ℕ → ℕ → MuxConnection
new_connection dev client sport dport = record {
  dev = dev;
  client = some client;
  state = MuxConnState.connecting;
  sport = sport;
  dport = dport;
  tx_seq = 0;
  tx_ack = 0;
  tx_acked = 0;
  tx_win = 131072;
  rx_seq = 0;
  rx_recvd = 0;
  rx_ack = 0;
  rx_win = 0;
  max_payload = usb_mtu - mux_header_full_size - tcphdr_size;
  sendable = 0;
  ack_pending = false;
  ib_buf = [];
  ib_capacity = conn_inbuf_size;
  ob_capacity = conn_outbuf_size;
  events = record { pollin = false; pollout = false };
  last_ack_time = 0;
}

module _ (env : Env) where
  -- The part after the port has been found; a connection whose SYN cannot be sent is never stored.
  unfoldable pub open_connection : ℕ → ℕ → ℕ → ℕ → M ℤ
  open_connection dev sport dport client = do
    conn ← alloc
    (res, c) ← send_segment env (new_connection dev client sport dport) th_syn []
    if is_neg res then pure (neg result_connrefused) else (do
      store_conn conn c
      d ← load_device dev
      ps ← deref d.connections
      store_device dev (record d { connections = some (env.collection_add ps conn) })
      pure (pos 0))

  unfoldable pub device_start_connect : ℕ → ℕ → ℕ → M ℤ
  unfolding find_sport open_connection
  device_start_connect device_id dport client = do
    found ← get_mux_device_for_id device_id
    maybe found (pure (neg result_baddev)) λ dev. do
      sport ← find_sport dev
      if sport == 0 then pure (neg result_baddev) else open_connection dev sport dport client

-- ===== src/Device/Input.antt =====
-- Packets from a device: `device_data_input` of src/device.c and the handlers that it calls.
pub mod Faults
pub mod Dispatch
pub mod Sound
use usbmuxd_win_mce.Base.{
  ℕ, zero, suc, ◌+◌, ◌-◌, ◌*◌, ◌^◌, Bool, true, false, not, ◌&&◌, ◌||◌, Option, none, some, List,
  [], ◌∷◌, ℤ, is_neg, take, drop, length, ltb, ◌==◌, if◌then◌else◌, add32, sub32, be16_at, be32_at,
  byte_at,
}
use usbmuxd_win_mce.State.{World, MuxDevice, MuxConnection, MuxDevState, MuxConnState}
use usbmuxd_win_mce.State.Monad.{
  M, pure, ◌>>=◌, ◌>>◌, skip, get, modify, when, deref, load_device, store_device, free_device,
  load_conn, store_conn, load_usb,
}
use usbmuxd_win_mce.Env.{Env}
use usbmuxd_win_mce.Wire.{
  MuxProtocol, TcpHeader, tcp_header_of, mux_header_size, version_header_size, tcphdr_size, usb_mru,
  dev_mru, mux_header_full_size, th_ack, has_rst,
}
use usbmuxd_win_mce.Client.Output.{result_ok}
use usbmuxd_win_mce.Client.Socket.{client_notify_connect}
use usbmuxd_win_mce.Client.Broadcast.{preflight_worker_device_add}
use usbmuxd_win_mce.Device.Packet.{send_packet, send_anon_rst, send_tcp}
use usbmuxd_win_mce.Device.Window.{update_connection}
use usbmuxd_win_mce.Device.Lookup.{first_device, first_conn}
use usbmuxd_win_mce.Device.Teardown.{connection_teardown}
use usbmuxd_win_mce.Device.Transfer.{connection_device_input, send_tcp_ack}
use usbmuxd_win_mce.Device.Info.{is_active, info_of}
use usbmuxd_win_mce.Device.Gather.{Gathered, dropped, waiting, packet, gather, length_field}

abbrev pub is_init : MuxDevState → Bool
is_init MuxDevState.init = true
is_init _ = false

pub data LogLevel : Type 0 where
  ll_error ll_warning ll_info : LogLevel

-- The line that `device_control_input` logs: the device's text, or a remark that there is none.
pub data ControlLog : Type 0 where
  text : LogLevel → List ℕ → ControlLog
  remark : LogLevel → ControlLog

-- The bytes of a C string: those before the first NUL.
abbrev pub c_string : List ℕ → List ℕ
c_string [] = []
c_string (x ∷ xs) = let rest = c_string xs in if x == 0 then [] else x ∷ rest

-- `%.*s`: the precision is an int, and a negative one counts as none. Bytes past the memory that is
-- modelled are not read.
abbrev pub printed : ℕ → List ℕ → List ℕ
printed precision bytes =
    if ltb precision (2 ^ 31) then c_string (take precision bytes) else c_string bytes

unfoldable pub device_control_input : List ℕ → ℕ → ControlLog
device_control_input payload payload_length =
    let kind = byte_at payload 0 in
    let shown = printed (sub32 payload_length 1) (drop 1 payload) in
    if ltb 0 payload_length
    then (if kind == 3
        then (if ltb 1 payload_length then text ll_error shown else remark ll_error)
        else if kind == 5
        then (if ltb 1 payload_length then text ll_warning shown else remark ll_warning)
        else if kind == 7
        then (if ltb 1 payload_length then text ll_info shown else remark ll_warning)
        else text ll_warning shown)
    else remark ll_warning

-- What every segment of a connection tells of the device's side.
unfoldable pub received : MuxConnection → TcpHeader → MuxConnection
received c th = record c { rx_seq = th.th_seq; rx_ack = th.th_ack_no; rx_win = th.th_win * 256 }

-- A SYN/ACK counts as one byte on both sides.
unfoldable pub synchronised : MuxConnection → MuxConnection
synchronised c = record c {
  tx_seq = add32 c.tx_seq 1;
  tx_ack = add32 c.tx_ack 1;
  rx_recvd = c.rx_seq;
}

abbrev pub with_state : MuxConnection → MuxConnState → MuxConnection
with_state c s = record c { state = s }

module _ (env : Env) where
  unfoldable pub activate : ℕ → ℕ → M (Unit {0})
  activate dev major = do
    d ← load_device dev
    store_device dev (record d { version = major })
    if ltb major 2 then skip else (do _ ← send_packet env dev MuxProtocol.setup [] (7 ∷ []); skip)
    d' ← load_device dev
    u ← load_usb d'.usbdev
    store_device dev (record d' { state = MuxDevState.active; connections = some [] })
    preflight_worker_device_add env (info_of d' u)

  -- `vh` is the memory at the version header.
  unfoldable pub device_version_input : ℕ → List ℕ → M (Unit {0})
  unfolding activate
  device_version_input dev vh = do
    d ← load_device dev
    let major = be32_at vh 0
    if is_init d.state
        then (if major == 2 || major == 1 then activate dev major else (do
          modify (λ w. record w { device_list = env.collection_remove w.device_list dev })
          free_device dev))
        else skip

  module _ (fuel : ℕ) where
    -- The SYN/ACK of a connection that is being made.
    unfoldable pub handshake : ℕ → M (Unit {0})
    unfolding synchronised
    handshake conn = do
      c ← load_conn conn
      store_conn conn (synchronised c)
      res ← send_tcp env conn th_ack []
      if is_neg res then connection_teardown env fuel conn else (do
        c' ← load_conn conn
        store_conn conn (with_state c' MuxConnState.connected)
        client ← deref c'.client
        told ← client_notify_connect env client result_ok
        when (is_neg told) (do
          c'' ← load_conn conn
          store_conn conn (record c'' { client = none })
          connection_teardown env fuel conn)
        update_connection conn)

    -- A segment that ends the connection: a reset leaves it in the given state.
    unfoldable pub end_by_device : ℕ → ℕ → MuxConnState → M (Unit {0})
    end_by_device conn flags reset = do
      c ← load_conn conn
      store_conn conn (if has_rst flags then with_state c reset else c)
      connection_teardown env fuel conn

    unfoldable pub segment_input : ℕ → TcpHeader → List ℕ → M (Unit {0})
    unfolding received handshake end_by_device
    segment_input conn th payload = do
      c ← load_conn conn
      store_conn conn (received c th)
      elim c.state [
        | MuxConnState.connecting ↦
            if th.th_flags == 18
            then handshake conn
            else end_by_device conn th.th_flags MuxConnState.refused
        | MuxConnState.connected ↦
            if th.th_flags == th_ack
            then (do
              connection_device_input env fuel conn payload
              _ ← send_tcp_ack env fuel conn
              skip)
            else end_by_device conn th.th_flags MuxConnState.dying
        | _ ↦ skip
      ]

    unfoldable pub device_tcp_input : ℕ → TcpHeader → List ℕ → M (Unit {0})
    unfolding segment_input
    device_tcp_input dev th payload = do
      d ← load_device dev
      if is_active d.state
          then (do
            ps ← deref d.connections
            found ← first_conn (λ c. (c.sport == th.th_dport) && (c.dport == th.th_sport)) ps
            elim found [
              | some conn ↦ segment_input conn th payload
              | none ↦
                  if has_rst th.th_flags
                  then skip
                  else (do _ ← send_anon_rst env dev th.th_dport th.th_sport th.th_seq; skip)
            ])
          else skip

    -- The second half of `device_data_input`: a whole packet goes to its handler.
    unfoldable pub dispatch : ℕ → List ℕ → ℕ → M (Unit {0})
    dispatch dev buffer len = do
      d ← load_device dev
      let size = mux_header_size d.version
      let proto = be32_at buffer 0
      if length_field buffer == len
          then (do
            store_device dev
                (if ltb d.version 2 then d else record d { rx_seq = be16_at buffer 14 })
            if proto == 0
                then (if ltb len (size + version_header_size)
                    then skip
                    else device_version_input dev (drop size buffer))
                else if proto == 1
                then (let line =
                      device_control_input (drop mux_header_full_size buffer) (sub32 len size) in
                    skip)
                else if proto == 6
                then (if ltb len (size + tcphdr_size)
                    then skip
                    else device_tcp_input dev (tcp_header_of (drop size buffer))
                        (take (len - tcphdr_size - size) (drop (size + tcphdr_size) buffer)))
                else skip)
          else skip

    unfoldable pub gathered : ℕ → Gathered → M (Unit {0})
    unfolding dispatch
    gathered dev (dropped d) = store_device dev d
    gathered dev (waiting d) = store_device dev d
    gathered dev (packet d buffer len) = do store_device dev d; dispatch dev buffer len

    unfoldable pub device_data_input : ℕ → List ℕ → ℕ → M (Unit {0})
    unfolding gather gathered
    device_data_input usbdev buffer len = do
      l ← get (λ w. w.device_list)
      found ← first_device (λ d. d.usbdev == usbdev) l
      elim found [
        | none ↦ skip
        | some dev ↦
            if len == 0 || ltb usb_mru len || ltb dev_mru len
            then skip
            else (do d ← load_device dev; gathered dev (gather d buffer len))
      ]

-- ===== src/Device/Teardown.antt =====
-- The end of a connection and of a client: `connection_teardown` and `device_abort_connect` of
-- src/device.c, and `client_close` of src/client.c, which call one another.
pub mod Freed
pub mod Untouched
pub mod Sound
use usbmuxd_win_mce.Base.{
  ℕ, zero, suc, ◌+◌, ◌-◌, Bool, true, false, not, ◌&&◌, ◌||◌, Option, none, some, List, [], ◌∷◌, ℤ,
  pos, negsuc, drop, contains, length, ltb, leb, ◌==◌, if◌then◌else◌, sub64,
}
use usbmuxd_win_mce.State.{World, MuxDevice, MuxConnection, MuxDevState, MuxConnState, ClientState}
use usbmuxd_win_mce.State.Monad.{
  M, pure, ◌>>=◌, ◌>>◌, skip, get, modify, when, faults, deref, load_device, store_device,
  load_conn, store_conn, load_client, store_client, free_conn, free_client,
}
use usbmuxd_win_mce.Env.{Env}
use usbmuxd_win_mce.Wire.{th_rst}
use usbmuxd_win_mce.Client.Output.{result_connrefused}
use usbmuxd_win_mce.Client.Socket.{
  client_notify_connect, client_write, is_connecting1, is_connecting2,
}
use usbmuxd_win_mce.Device.Packet.{send_tcp, mstime64}
use usbmuxd_win_mce.Device.Lookup.{get_mux_connection}

abbrev pub is_dev_dead : MuxDevState → Bool
is_dev_dead MuxDevState.dead = true
is_dev_dead _ = false

abbrev pub is_conn_dead : MuxConnState → Bool
is_conn_dead MuxConnState.dead = true
is_conn_dead _ = false

abbrev pub is_dying : MuxConnState → Bool
is_dying MuxConnState.dying = true
is_dying _ = false

abbrev pub is_refused : MuxConnState → Bool
is_refused MuxConnState.refused = true
is_refused _ = false

abbrev pub is_connecting : MuxConnState → Bool
is_connecting MuxConnState.connecting = true
is_connecting _ = false

module _ (env : Env) where
  -- `collection_remove(&conn->dev->connections, conn)`
  unfoldable pub unlink_conn : ℕ → ℕ → M (Unit {0})
  unlink_conn dev conn = do
    d ← load_device dev
    cs ← deref d.connections
    store_device dev (record d { connections = some (env.collection_remove cs conn) })

  -- The loop that flushes the buffer to the client. It gives up on an error, or when the client has
  -- taken nothing for more than a second; `fuel` bounds the rounds, which only the clock ends.
  unfoldable pub flush_loop : ℕ → ℕ → ℕ → ℕ → M (Unit {0})
  flush_loop zero conn client tm_last = skip
  flush_loop (suc fuel) conn client tm_last = do
    c ← load_conn conn
    size ← client_write env client c.ib_buf
    elim size [
      | negsuc _ ↦ skip
      | pos zero ↦ do
        tm_now ← mstime64 env
        if ltb 1000 (sub64 tm_now tm_last) then skip else flush_loop fuel conn client tm_last
      | pos (suc n) ↦ do
        store_conn conn (record c { ib_buf = drop (suc n) c.ib_buf })
        if suc n == length c.ib_buf
            then skip
            else (do tm ← mstime64 env; flush_loop fuel conn client tm)
    ]

  module _ (fuel : ℕ) where
    unfoldable pub flush : ℕ → ℕ → M (Unit {0})
    unfolding flush_loop
    flush conn client = do tm_last ← mstime64 env; flush_loop fuel conn client tm_last

    -- The part for the client: it is told that the connect failed, or gets what is buffered and is
    -- closed by `close`.
    unfoldable pub teardown_client : (ℕ → M (Unit {0})) → ℕ → ℕ → M (Unit {0})
    unfolding flush
    teardown_client close conn client = do
      c ← load_conn conn
      if is_refused c.state || is_connecting c.state
          then (do _ ← client_notify_connect env client result_connrefused; skip)
          else (do
            store_conn conn (record c { state = MuxConnState.dead })
            when (c.events.pollout && ltb 0 (length c.ib_buf)) (flush conn client)
            close client)

    -- The RST that tells the device, unless it has sent one itself or is gone.
    unfoldable pub teardown_reset : ℕ → M (Unit {0})
    teardown_reset conn = do
      c ← load_conn conn
      d ← load_device c.dev
      when (not (is_dev_dead d.state) && not (is_dying c.state) && not (is_refused c.state))
          (do _ ← send_tcp env conn th_rst []; skip)

    unfoldable pub teardown_with : (ℕ → M (Unit {0})) → ℕ → M (Unit {0})
    teardown_with close conn = do
      c ← load_conn conn
      if is_conn_dead c.state then skip else (do
        teardown_reset conn
        elim c.client [ none ↦ skip | some client ↦ teardown_client close conn client ]
        unlink_conn c.dev conn
        free_conn conn)

    -- `device_abort_connect`: the connection forgets its client before it is torn down, so that the
    -- teardown closes no client; `close` stands for that call.
    unfoldable pub abort_with : (ℕ → M (Unit {0})) → ℕ → ℕ → M (Unit {0})
    abort_with close device_id client = do
      found ← get_mux_connection device_id client
      elim found [
        | none ↦ skip
        | some conn ↦ do
          c ← load_conn conn
          store_conn conn (record c { client = none })
          teardown_with close conn
      ]

    unfoldable pub device_abort_connect : ℕ → ℕ → M (Unit {0})
    unfolding abort_with
    device_abort_connect = abort_with (λ _. faults)

    -- A client that is not in the list was closed before.
    unfoldable pub client_close : ℕ → M (Unit {0})
    unfolding device_abort_connect
    client_close client = do
      l ← get (λ w. w.client_list)
      if contains client l
          then (do
            c ← load_client client
            when (is_connecting1 c.state || is_connecting2 c.state) (do
              store_client client (record c { state = ClientState.dead })
              device_abort_connect c.connect_device client)
            modify (λ w. record w { client_list = env.collection_remove w.client_list client })
            free_client client)
          else skip

    unfoldable pub connection_teardown : ℕ → M (Unit {0})
    unfolding client_close teardown_with
    connection_teardown = teardown_with client_close

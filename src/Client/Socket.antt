-- ===== src/Client/Socket.antt =====
-- The socket of one client: reads, writes, the event mask and the reply to a connect request
-- (src/client.c).
pub mod Lifecycle
pub mod Sound
use usbmuxd_win_mce.Base.{
  ℕ, ◌+◌, Bool, true, false, not, ◌&&◌, ◌||◌, Option, none, some, List, [], ◌∷◌, ◌++◌, ℤ, pos, neg,
  negsuc, is_neg, pos_part, take, ltb, ◌==◌, if◌then◌else◌,
}
use usbmuxd_win_mce.State.{World, MuxClient, ClientState, Events}
use usbmuxd_win_mce.State.Monad.{
  M, pure, ◌>>=◌, ◌>>◌, skip, deref, load_client, store_client, tick, modify,
}
use usbmuxd_win_mce.Env.{Env}
use usbmuxd_win_mce.Client.Output.{send_result, result_ok}

abbrev pub is_connected : ClientState → Bool
is_connected ClientState.connected = true
is_connected _ = false

abbrev pub is_connecting1 : ClientState → Bool
is_connecting1 ClientState.connecting1 = true
is_connecting1 _ = false

abbrev pub is_connecting2 : ClientState → Bool
is_connecting2 ClientState.connecting2 = true
is_connecting2 _ = false

abbrev pub is_listen : ClientState → Bool
is_listen ClientState.listen = true
is_listen _ = false

abbrev pub only_pollout : Events
only_pollout = record { pollin = false; pollout = true }

-- The event masks after `client_set_events`.
unfoldable pub with_events : MuxClient → Events → MuxClient
with_events c events =
    if is_connected c.state || is_connecting2 c.state
    then record c { devents = events; events = if is_connected c.state then events else c.events }
    else c

-- What a successful result does to the client's state in `client_notify_connect`.
unfoldable pub notified : MuxClient → ℕ → MuxClient
notified c result =
    if result == result_ok
    then record c { state = ClientState.connecting2; events = only_pollout; ib_buf = none }
    else record c { state = ClientState.command }

-- The pointer may be NULL, which the code does not check.
unfoldable pub client_set_events : Option ℕ → Events → M (Unit {0})
unfolding with_events
client_set_events client events = do
  p ← deref client
  c ← load_client p
  store_client p (with_events c events)

module _ (env : Env) where
  -- `none` is a negative result.
  unfoldable pub client_read : ℕ → ℕ → M (Option (List ℕ))
  client_read client len = do
    c ← load_client client
    call ← tick
    pure (if is_connected c.state then env.recv call c.fd len else none)

  -- Bytes that the socket took, as a record of the effect.
  abbrev pub note_sent : ℕ → ℤ → List ℕ → M (Unit {0})
  note_sent fd (pos n) bytes =
      modify λ w. record w { socket_out = (fd, take n bytes) ∷ w.socket_out }
  note_sent fd (negsuc n) bytes = skip

  -- A socket that is not ready counts as 0 bytes written.
  unfoldable pub client_write : ℕ → List ℕ → M ℤ
  client_write client bytes = do
    c ← load_client client
    call ← tick
    if is_connected c.state
        then (do
          let sret = env.send call c.fd bytes
          note_sent c.fd sret bytes
          pure (if is_neg sret && env.would_block call then pos 0 else sret))
        else pure (neg 1)

  unfoldable pub client_notify_connect : ℕ → ℕ → M ℤ
  unfolding notified
  client_notify_connect client result = do
    c ← load_client client
    if is_connecting1 c.state
        then (do
          sent ← send_result env client c.connect_tag result
          if is_neg sent then pure (neg 1) else (do
            c' ← load_client client
            store_client client (notified c' result)
            pure (pos 0)))
        else pure (neg 1)

-- ===== src/Client/Process.antt =====
-- The events of a client's socket: `client_accept`, `input_buffer_process`,
-- `output_buffer_process`, `client_process`, `client_get_fds`, `client_init` and `client_shutdown`
-- of src/client.c.
pub mod Framed
pub mod Closed
pub mod Sound
use usbmuxd_win_mce.Base.{
  ℕ, zero, suc, ◌+◌, ◌-◌, ◌%◌, ◌^◌, Bool, true, false, not, ◌&&◌, ◌||◌, Option, none, some, List,
  [], ◌∷◌, ◌++◌, ℤ, pos, pos_part, neg, negsuc, is_neg, ◌==◌, ltb, if◌then◌else◌, length, take,
  drop, le32_at, contains,
}
use usbmuxd_win_mce.State.{World, MuxClient, ClientState, Events}
use usbmuxd_win_mce.State.Monad.{
  M, pure, maybe, ◌>>=◌, ◌>>◌, skip, get, modify, deref, alloc, tick, load_client, store_client,
}
use usbmuxd_win_mce.Env.{Env}
use usbmuxd_win_mce.Client.Output.{usbmuxd_header_size, bytes_of}
use usbmuxd_win_mce.Client.Socket.{is_connected, is_connecting2, note_sent}
use usbmuxd_win_mce.Client.Command.{handle_command}
use usbmuxd_win_mce.Device.Teardown.{client_close}
use usbmuxd_win_mce.Device.Transfer.{device_client_process}

abbrev pub cmd_buf_size : ℕ
cmd_buf_size = 0x10000

abbrev pub reply_buf_size : ℕ
reply_buf_size = 0x10000

abbrev pub no_events : Events
no_events = record { pollin = false; pollout = false }

-- The client that `client_accept` fills in.
abbrev pub new_client : ℕ → ℕ → MuxClient
new_client fd number = record {
  fd = fd;
  ob_buf = some [];
  ob_capacity = reply_buf_size;
  ib_buf = some [];
  ib_capacity = cmd_buf_size;
  events = record { pollin = true; pollout = false };
  devents = no_events;
  connect_tag = 0;
  connect_device = 0;
  state = ClientState.command;
  proto_version = 0;
  number = number;
  info = none;
}

-- The client after `n` bytes of its output went out: a connection that was made is open once its
-- answer is.
unfoldable pub after_output : MuxClient → List ℕ → ℕ → MuxClient
after_output c buf n =
    if n == length buf
    then (if is_connecting2 c.state
        then record c { state = ClientState.connected; events = c.devents; ob_buf = none }
        else record c {
          ob_buf = some [];
          events = record { pollin = c.events.pollin; pollout = false };
        })
    else record c { ob_buf = some (drop n buf) }

-- `client->ib_size = 0`
unfoldable pub forget_input : MuxClient → MuxClient
forget_input c = record c { ib_buf = elim c.ib_buf [ none ↦ none | some _ ↦ some [] ] }

abbrev pub with_input : MuxClient → List ℕ → MuxClient
with_input c buf = record c { ib_buf = some buf }

-- What is to be done with the bytes of a message so far.
pub data Framing : Type 0 where
  too_long too_short complete : Framing
  incomplete : ℕ → Framing

-- The tests of `input_buffer_process` on a buffer that holds a header: `incomplete` is with the
-- number of bytes that are missing.
unfoldable pub framing : ℕ → List ℕ → Framing
framing capacity buf =
    let len = le32_at buf 0 in
    if ltb capacity len
    then too_long
    else if ltb len usbmuxd_header_size
    then too_short
    else if ltb (length buf) len
    then incomplete (len - length buf)
    else complete

-- The bytes that a recv got; at the end of the input and at an error there are none.
abbrev pub some_bytes : Option (List ℕ) → Option (List ℕ)
some_bytes none = none
some_bytes (some []) = none
some_bytes (some (b ∷ bs)) = some (b ∷ bs)

-- The number of bytes that a send took, if it took any.
abbrev pub some_sent : ℤ → Option ℕ
some_sent (pos (suc n)) = some (suc n)
some_sent _ = none

unfoldable pub client_init : M (Unit {0})
client_init = modify λ w. record w { client_list = [] }

unfoldable pub fds_of : List ℕ → M (List (ℕ × Events))
fds_of [] = pure []
fds_of (p ∷ ps) = do c ← load_client p; rest ← fds_of ps; pure ((c.fd, c.events) ∷ rest)

-- What `client_get_fds` adds to the list of descriptors, in order.
unfoldable pub client_get_fds : M (List (ℕ × Events))
unfolding fds_of
client_get_fds = do l ← get (λ w. w.client_list); fds_of l

unfoldable pub first_client : ℕ → List ℕ → M (Option ℕ)
first_client fd [] = pure none
first_client fd (p ∷ ps) = do
  c ← load_client p
  if c.fd == fd then pure (some p) else first_client fd ps

module _ (env : Env) where
  -- The socket options are set on a best effort; only accept can fail.
  unfoldable pub client_accept : ℕ → M ℤ
  client_accept listenfd = do
    call ← tick
    let cfd = env.accept call listenfd
    if is_neg cfd then pure cfd else (do
      client ← alloc
      number ← get (λ w. w.client_number)
      store_client client (new_client (pos_part cfd) number)
      modify (λ w. record w {
        client_list = env.collection_add w.client_list client;
        client_number = (number + 1) % 2 ^ 32;
      })
      pure cfd)

  module _ (fuel : ℕ) where
    unfoldable pub output_buffer_process : ℕ → M (Unit {0})
    unfolding after_output
    output_buffer_process client = do
      c ← load_client client
      let buf = bytes_of c.ob_buf
      if length buf == 0
          then store_client client
              (record c { events = record { pollin = c.events.pollin; pollout = false } })
          else (do
            call ← tick
            let res = env.send call c.fd buf
            note_sent env c.fd res buf
            maybe (some_sent res) (client_close env fuel client)
                (λ n. store_client client (after_output c buf n)))

    -- A message that is complete is handled, and its bytes are forgotten.
    unfoldable pub finish_input : ℕ → List ℕ → M (Unit {0})
    unfolding forget_input
    finish_input client buf = do
      _ ← handle_command env fuel client buf
      c ← load_client client
      store_client client (forget_input c)

    -- recv behind the bytes that are there; `none` if the client was closed.
    unfoldable pub receive_more : ℕ → List ℕ → ℕ → M (Option (List ℕ))
    receive_more client buf n = do
      c ← load_client client
      call ← tick
      maybe (some_bytes (env.recv call c.fd n)) (do client_close env fuel client; pure none)
          (λ bytes. do
            store_client client (with_input c (buf ++ bytes))
            pure (some (buf ++ bytes)))

    unfoldable pub framed_input : ℕ → List ℕ → Bool → M (Unit {0})
    unfolding framing receive_more finish_input
    framed_input client buf did_read = do
      c ← load_client client
      elim (framing c.ib_capacity buf) [
        | too_long ↦ client_close env fuel client
        | too_short ↦ client_close env fuel client
        | complete ↦ finish_input client buf
        | incomplete missing ↦ if did_read then skip else (do
          got ← receive_more client buf missing
          maybe got skip
              λ buf'. if ltb (length buf') (le32_at buf' 0) then skip else finish_input client buf')
      ]

    -- Each call makes one recv at most: first for the header, then for the rest.
    unfoldable pub input_buffer_process : ℕ → M (Unit {0})
    unfolding framed_input
    input_buffer_process client = do
      c ← load_client client
      buf ← deref c.ib_buf
      if ltb (length buf) usbmuxd_header_size
          then (do
            got ← receive_more client buf (usbmuxd_header_size - length buf)
            maybe got skip λ buf'.
                if ltb (length buf') usbmuxd_header_size
                then skip
                else framed_input client buf' true)
          else framed_input client buf false

    unfoldable pub client_process : ℕ → Events → M (Unit {0})
    unfolding first_client input_buffer_process output_buffer_process
    client_process fd events = do
      l ← get (λ w. w.client_list)
      found ← first_client fd l
      maybe found skip λ client. do
        c ← load_client client
        if is_connected c.state
            then device_client_process env fuel c.connect_device client events
            else if events.pollin
            then input_buffer_process client
            else if events.pollout
            then output_buffer_process client
            else skip

    -- FOREACH over the clients; one that is gone by its turn is passed over.
    unfoldable pub close_each : List ℕ → M (Unit {0})
    close_each [] = skip
    close_each (p ∷ ps) = do
      l ← get (λ w. w.client_list)
      if contains p l then client_close env fuel p else skip
      close_each ps

    unfoldable pub client_shutdown : M (Unit {0})
    unfolding close_each
    client_shutdown = do l ← get (λ w. w.client_list); close_each l

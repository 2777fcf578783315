-- ===== src/Client/Socket/Lifecycle.antt =====
-- The buffers and the states of a client (src/client.c): which buffers there are in which state.
use usbmuxd_win_mce.Base.{ℕ, ◌≡◌, Bool, true, false, Option, none, some, List, arith}
use usbmuxd_win_mce.State.{MuxClient}
use usbmuxd_win_mce.Client.Socket.{is_connected, is_connecting2}
use usbmuxd_win_mce.Client.Process.{after_output}

abbrev pub has_buffer : Option (List ℕ) → Bool
has_buffer none = false
has_buffer (some b) = true

-- The output buffer is there until the client is connected, the input buffer until its connect
-- request was answered, and from then on until it is connected the client is not polled for input.
pub record IsSound (c : MuxClient) : Type 0 where
  pub output_there : is_connected c.state ≡ false → has_buffer c.ob_buf ≡ true
  pub input_there :
      is_connected c.state ≡ false → is_connecting2 c.state ≡ false → has_buffer c.ib_buf ≡ true
  pub quiet : is_connecting2 c.state ≡ true → c.events.pollin ≡ false

-- output_buffer_process keeps this, for a client that is not connected yet.
pub after_output-IsSound :
    (c : MuxClient) (buf : List ℕ) (n : ℕ)
    → is_connected c.state ≡ false
    → IsSound c
    → IsSound (after_output c buf n)
unfolding after_output
after_output-IsSound c buf n s v = ground (arith, v)

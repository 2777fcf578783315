-- ===== src/Tests/Clients.antt =====
-- Messages, requests and the life of a client.
use usbmuxd_win_mce.Base.{◌≡◌, refl, some, [], ◌++◌, ℤ, arith, le32}
use usbmuxd_win_mce.State.{World, ClientState}
use usbmuxd_win_mce.State.Monad.{done, fault, put}
use usbmuxd_win_mce.Client.Output.{usbmuxd_header, output_buffer_add_message, send_result, reserve}
use usbmuxd_win_mce.Client.Output.Queue.{output_buffer_add_message_lem, Queued}
use usbmuxd_win_mce.Client.Process.{framing, finish_input}
use usbmuxd_win_mce.Client.Process.Framed.{framing-IsFramed, IsFramed}
use usbmuxd_win_mce.Client.Process.Closed.{finish_input_wrong_state}
use usbmuxd_win_mce.Tests.Sample.{sample_env, sample_client, sample_world}

output_buffer_add_message_lem_example :
    (r : ℤ) × (w' : World) × (output_buffer_add_message sample_env 3 7 1 (le32 0) sample_world
      ≡ done r w')
    × Queued sample_env 3 sample_client [] (usbmuxd_header 20 0 1 7 ++ le32 0) r sample_world w'
output_buffer_add_message_lem_example =
    output_buffer_add_message_lem sample_env 3 7 1 (le32 0) sample_client [] sample_world refl
      (record { there = refl; within = omega arith; no_wrap = omega arith })

framing-IsFramed_example : IsFramed 65536 (le32 20 ++ le32 0) (framing 65536 (le32 20 ++ le32 0))
framing-IsFramed_example = framing-IsFramed 65536 (le32 20 ++ le32 0)

-- The client listens, and sends another request.
abbrev listening_world : World
listening_world = record sample_world {
  clients = put sample_world.clients 3 (some (record sample_client { state = ClientState.listen }));
}

finish_input_wrong_state_example :
    finish_input sample_env 5 3 (le32 16 ++ (le32 0 ++ (le32 3 ++ le32 1))) listening_world ≡ fault
unfolding send_result output_buffer_add_message reserve usbmuxd_header
finish_input_wrong_state_example =
    finish_input_wrong_state sample_env 5 3 (le32 16 ++ (le32 0 ++ (le32 3 ++ le32 1)))
      (record sample_client { state = ClientState.listen }) 20 listening_world _ refl refl refl refl

-- ===== src/Client/Process/Closed.antt =====
-- A request in the wrong state (src/client.c).
use usbmuxd_win_mce.Base.{ℕ, ◌≡◌, List, true, false, none, some, ℤ, pos, arith, contains, le32_at}
use usbmuxd_win_mce.State.{World, MuxClient}
use usbmuxd_win_mce.State.Monad.{done, fault}
use usbmuxd_win_mce.State.Monad.Runs.{fault_after_any}
use usbmuxd_win_mce.Env.{Env}
use usbmuxd_win_mce.Client.Output.{
  send_result, send_plist, output_buffer_add_message, result_badcommand,
}
use usbmuxd_win_mce.Client.Command.{handle_command, is_command}
use usbmuxd_win_mce.Client.Process.{finish_input}
use usbmuxd_win_mce.Device.Teardown.{client_close}

module _ (env : Env) (fuel : ℕ) where
  -- A client of the list that was closed is freed.
  pub client_close_frees :
      (client : ℕ) (w w' : World)
      → contains client w.client_list ≡ true
      → client_close env fuel client w ≡ done tt w'
      → w'.clients client ≡ none
  unfolding client_close
  client_close_frees client w w' h e = ground arith

  send_result_list :
      (client tag result : ℕ) (r : ℤ) (w w' : World)
      → send_result env client tag result w ≡ done r w'
      → w'.client_list ≡ w.client_list
  unfolding send_result send_plist output_buffer_add_message
  send_result_list client tag result r w w' e = ground arith

  handled_closed :
      (client : ℕ) (msg : List ℕ) (c c₁ : MuxClient) (n : ℕ) (w w₁ w' : World) (r : ℤ)
      → w.clients client ≡ some c
      → is_command c.state ≡ false
      → contains client w.client_list ≡ true
      → send_result env client (le32_at msg 12) result_badcommand w ≡ done (pos n) w₁
      → handle_command env fuel client msg w ≡ done r w'
      → w'.clients client ≡ none
  unfolding handle_command
  handled_closed client msg c c₁ n w w₁ w' r h s l e k = ground (
    arith,
    send_result_list client (le32_at msg 12) result_badcommand (pos n) w w₁,
    client_close_frees client w₁ w',
  )

  -- A client of the list that is not waiting for a command, and whose refusal can be queued, is
  -- closed, and its input is then reset although it was freed.
  pub finish_input_wrong_state :
      (client : ℕ) (msg : List ℕ) (c : MuxClient) (n : ℕ) (w w₁ : World)
      → w.clients client ≡ some c
      → is_command c.state ≡ false
      → contains client w.client_list ≡ true
      → send_result env client (le32_at msg 12) result_badcommand w ≡ done (pos n) w₁
      → finish_input env fuel client msg w ≡ fault
  unfolding finish_input
  finish_input_wrong_state client msg c n w w₁ h s l e =
      fault_after_any (handle_command env fuel client msg) _ w
        λ r w' k. ground (arith, handled_closed client msg c c n w w₁ w' r h s l e k)

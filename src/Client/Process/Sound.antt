-- ===== src/Client/Process/Sound.antt =====
-- The events of a client's socket keep the buffers of every client: what is accepted, received, handled
-- and sent (src/client.c).
use usbmuxd_win_mce.Base.{
  ℕ, ◌≡◌, ◌+◌, ◌%◌, ◌^◌, inl, inr, refl, Bool, true, false, Option, none, some, List, [], ◌∷◌, ◌++◌,
  ℤ, pos, negsuc, arith, length, le32_at, ltb, ◌==◌, Bool-cases, Option-cases, if◌then◌else◌,
}
use usbmuxd_win_mce.State.{World, MuxClient, Events}
use usbmuxd_win_mce.State.Monad.{
  M, pure, skip, maybe, ◌>>=◌, ◌>>◌, put, modify, tick, load_client, store_client, done,
}
use usbmuxd_win_mce.State.Monad.Runs.{>>=-eq-done}
use usbmuxd_win_mce.Env.{Env}
use usbmuxd_win_mce.Client.Socket.{is_connected, note_sent}
use usbmuxd_win_mce.Client.Socket.Sound.{
  AllSound, store_sound, is_client_dead, untouched-KeepsSound,
}
use usbmuxd_win_mce.Client.Socket.Lifecycle.{IsSound, after_output-IsSound}
use usbmuxd_win_mce.Client.Keeps.{Keeps, Keeps-bind, Keeps-load_client, keeps_rules}
use usbmuxd_win_mce.Client.Command.{handle_command}
use usbmuxd_win_mce.Client.Command.Sound.{handle_command-Keeps}
use usbmuxd_win_mce.Device.Teardown.{client_close}
use usbmuxd_win_mce.Device.Teardown.Sound.{client_close-KeepsSound}
use usbmuxd_win_mce.Device.Transfer.{device_client_process}
use usbmuxd_win_mce.Device.Transfer.Sound.{device_client_process-KeepsSound}
use usbmuxd_win_mce.Client.Process.{
  new_client, after_output, forget_input, with_input, some_bytes, some_sent, Framing, too_long,
  too_short, complete, incomplete, framing, first_client, client_accept, output_buffer_process,
  finish_input, receive_more, framed_input, input_buffer_process, client_process,
}

-- A client that is stored as it was but for a change that keeps it sound, if what was loaded is there.
changed-Keeps :
    (p : ℕ) (c c' : MuxClient) (w w₁ w' : World)
    → AllSound w
    → w.clients p ≡ some c
    → (is_client_dead c'.state ≡ false → is_client_dead c.state ≡ false)
    → (is_client_dead c'.state ≡ false → IsSound c → IsSound c')
    → w₁.clients ≡ w.clients
    → w'.clients ≡ put w₁.clients p (some c')
    → AllSound w'
changed-Keeps p c c' w w₁ w' v there alive sound same e =
    store_sound p c' w v (λ a. sound a (v p c there (alive a))) w' (ground (arith, same, e))

first_client-Keeps : (fd : ℕ) (l : List ℕ) → Keeps (first_client fd l)
unfolding first_client
first_client-Keeps fd [] = search keeps_rules
first_client-Keeps fd (p ∷ ps) = let rest = first_client-Keeps fd ps in search keeps_rules

forget-Keeps : (p : ℕ) → Keeps (load_client p >>= λ c. store_client p (forget_input c))
unfolding forget_input
forget-Keeps p = record {
  at = λ r w w' v e. elim (Option-cases (w.clients p)) [
    | inl gone ↦ absurd (ground arith)
    | inr (c, there) ↦
        changed-Keeps p c (forget_input c) w w w' v there (λ a. a) (λ a s. ground arith) refl
          (ground arith)
  ];
}

module _ (env : Env) where
  accepted-Keeps : (fd number p : ℕ) → Keeps (store_client p (new_client fd number))
  accepted-Keeps fd number p = record {
    at = λ r w w' v e.
        store_sound p (new_client fd number) w v (λ a. ground arith) w' (ground arith);
  }

  listed-Keeps :
      (client number : ℕ)
      → Keeps (
          modify (λ w. record w {
            client_list = env.collection_add w.client_list client;
            client_number = (number + 1) % 2 ^ 32;
          }))
  listed-Keeps client number = record { at = untouched-KeepsSound _ (λ r w w' e. ground arith) }

  pub client_accept-Keeps : (listenfd : ℕ) → Keeps (client_accept env listenfd)
  unfolding client_accept
  client_accept-Keeps listenfd = search (keeps_rules, accepted-Keeps, listed-Keeps) depth 12

  module _ (fuel p : ℕ) where
    close-Keeps : Keeps (client_close env fuel p)
    close-Keeps = record { at = client_close-KeepsSound env fuel p }

    handle-Keeps : (msg : List ℕ) → Keeps (handle_command env fuel p msg)
    handle-Keeps msg = handle_command-Keeps env p fuel msg

    finish_input-Keeps : (buf : List ℕ) → Keeps (finish_input env fuel p buf)
    unfolding finish_input
    finish_input-Keeps buf = search (keeps_rules, handle-Keeps, forget-Keeps)

    -- What follows a recv for the client that was loaded.
    received : MuxClient → List ℕ → Option (List ℕ) → M (Option (List ℕ))
    received c buf got =
        maybe got (do client_close env fuel p; pure none)
          (λ bytes. do store_client p (with_input c (buf ++ bytes)); pure (some (buf ++ bytes)))

    received_sound :
        (c : MuxClient) (buf : List ℕ) (got r : Option (List ℕ)) (w w' : World)
        → AllSound w
        → w.clients p ≡ some c
        → received c buf got w ≡ done r w'
        → AllSound w'
    unfolding received
    received_sound c buf none r w w' v there e = shut.at r w w' v e
      where
        shut : Keeps (do client_close env fuel p; pure {A = Option (List ℕ)} none)
        shut = search (keeps_rules, close-Keeps)
    received_sound c buf (some bytes) r w w' v there e =
        changed-Keeps p c (with_input c (buf ++ bytes)) w w w' v there (λ a. a)
          (λ a s. ground arith) refl (ground arith)

    receive_more-Keeps : (buf : List ℕ) (n : ℕ) → Keeps (receive_more env fuel p buf n)
    unfolding receive_more received
    receive_more-Keeps buf n = record {
      at = λ r w w' v e. elim (Option-cases (w.clients p)) [
        | inl gone ↦ absurd (ground arith)
        | inr (c, there) ↦
            received_sound c buf (some_bytes (env.recv w.calls c.fd n)) r
              (record w { calls = w.calls + 1 }) w' v there (ground arith)
      ];
    }

    -- What is done with a message of which `f` tells how much is there.
    framed : List ℕ → Bool → Framing → M (Unit {0})
    framed buf did_read f = elim f [
      | too_long ↦ client_close env fuel p
      | too_short ↦ client_close env fuel p
      | complete ↦ finish_input env fuel p buf
      | incomplete missing ↦ if did_read then skip else (do
        got ← receive_more env fuel p buf missing
        maybe got skip λ buf'.
            if ltb (length buf') (le32_at buf' 0) then skip else finish_input env fuel p buf')
    ]

    framed-Keeps : (buf : List ℕ) (did_read : Bool) (f : Framing) → Keeps (framed buf did_read f)
    unfolding framed
    framed-Keeps buf did_read too_long = close-Keeps
    framed-Keeps buf did_read too_short = close-Keeps
    framed-Keeps buf did_read complete = finish_input-Keeps buf
    framed-Keeps buf did_read (incomplete missing) =
        search (keeps_rules, receive_more-Keeps, finish_input-Keeps) depth 8

    framed_input-Keeps :
        (buf : List ℕ) (did_read : Bool) → Keeps (framed_input env fuel p buf did_read)
    unfolding framed_input framed
    framed_input-Keeps buf did_read =
        Keeps-bind (load_client p) (λ c. framed buf did_read (framing c.ib_capacity buf))
          (Keeps-load_client p) (λ c. framed-Keeps buf did_read (framing c.ib_capacity buf))

    input_buffer_process-Keeps : Keeps (input_buffer_process env fuel p)
    unfolding input_buffer_process
    input_buffer_process-Keeps =
        search (keeps_rules, receive_more-Keeps, framed_input-Keeps) depth 12

    note_sent-same :
        (fd : ℕ) (res : ℤ) (buf : List ℕ) (r : Unit {0}) (w w' : World)
        → note_sent env fd res buf w ≡ done r w'
        → w'.clients ≡ w.clients
    note_sent-same fd (pos n) buf r w w' e = ground arith
    note_sent-same fd (negsuc n) buf r w w' e = ground arith

    -- What follows a send for the client that was loaded.
    output_done : MuxClient → List ℕ → Option ℕ → M (Unit {0})
    output_done c buf sent =
        maybe sent (client_close env fuel p) (λ n. store_client p (after_output c buf n))

    after_output-state :
        (c : MuxClient) (buf : List ℕ) (n : ℕ)
        → is_client_dead (after_output c buf n).state ≡ false
        → is_client_dead c.state ≡ false
    unfolding after_output
    after_output-state c buf n a = ground arith

    output_done_sound :
        (c : MuxClient) (buf : List ℕ) (sent : Option ℕ) (r : Unit {0}) (w w' : World)
        → AllSound w
        → w.clients p ≡ some c
        → is_connected c.state ≡ false
        → c.ob_buf ≡ some buf
        → output_done c buf sent w ≡ done r w'
        → AllSound w'
    unfolding output_done
    output_done_sound c buf none r w w' v there other b e = close-Keeps.at r w w' v e
    output_done_sound c buf (some n) r w w' v there other b e =
        changed-Keeps p c (after_output c buf n) w w w' v there (after_output-state c buf n)
          (λ a s. after_output-IsSound c buf n other s) refl (ground arith)

    -- The client when there is nothing to send.
    without_output : MuxClient → MuxClient
    without_output c = record c { events = record { pollin = c.events.pollin; pollout = false } }

    -- The bytes that are there are sent.
    send_output : MuxClient → List ℕ → M (Unit {0})
    send_output c buf = do
      call ← tick
      note_sent env c.fd (env.send call c.fd buf) buf
      output_done c buf (some_sent (env.send call c.fd buf))

    send_output_sound :
        (c : MuxClient) (buf : List ℕ) (r : Unit {0}) (w w' : World)
        → AllSound w
        → w.clients p ≡ some c
        → is_connected c.state ≡ false
        → c.ob_buf ≡ some buf
        → send_output c buf w ≡ done r w'
        → AllSound w'
    unfolding send_output
    send_output_sound c buf r w w' v there other b e =
        let (a, w₁, e₁, e₂) = >>=-eq-done (note_sent env c.fd res buf) _ {w = ticked} e in
        let same = note_sent-same c.fd res buf a ticked w₁ e₁ in
        output_done_sound c buf (some_sent res) r w₁ w'
          (λ q d h alive. v q d (ground (arith, same)) alive) (ground (arith, same)) other b e₂
      where
        res : ℤ
        res = env.send w.calls c.fd buf

        ticked : World
        ticked = record w { calls = w.calls + 1 }

    output_buffer_process_sound :
        (c : MuxClient) (r : Unit {0}) (w w' : World)
        → AllSound w
        → w.clients p ≡ some c
        → is_connected c.state ≡ false
        → output_buffer_process env fuel p w ≡ done r w'
        → AllSound w'
    unfolding output_buffer_process send_output output_done without_output
    output_buffer_process_sound c r w w' v there other e = elim (Option-cases c.ob_buf) [
      | inl freed ↦
          changed-Keeps p c (without_output c) w w w' v there (λ a. a) (λ a s. ground arith) refl
            (ground arith)
      | inr (buf, b) ↦ elim (Bool-cases (length buf == 0)) [
        | inl nothing ↦
            changed-Keeps p c (without_output c) w w w' v there (λ a. a) (λ a s. ground arith) refl
              (ground arith)
        | inr some_output ↦ send_output_sound c buf r w w' v there other b (ground arith)
      ]
    ]

    -- The events of a client that is not connected to a device.
    own_events_sound :
        (pollin pollout : Bool) (c : MuxClient) (r : Unit {0}) (w w' : World)
        → AllSound w
        → w.clients p ≡ some c
        → is_connected c.state ≡ false
        → (if pollin
              then input_buffer_process env fuel p
              else if pollout
              then output_buffer_process env fuel p
              else skip)
            w
          ≡ done r w'
        → AllSound w'
    own_events_sound true pollout c r w w' v there other e =
        input_buffer_process-Keeps.at r w w' v e
    own_events_sound false true c r w w' v there other e =
        output_buffer_process_sound c r w w' v there other e
    own_events_sound false false c r w w' v there other e =
        λ q d h alive. v q d (ground arith) alive

    -- What client_process does with the client it found.
    pub served : Events → M (Unit {0})
    served events = do
      c ← load_client p
      if is_connected c.state
          then device_client_process env fuel c.connect_device p events
          else if events.pollin
          then input_buffer_process env fuel p
          else if events.pollout
          then output_buffer_process env fuel p
          else skip

    served-Keeps : (events : Events) → Keeps (served events)
    unfolding served
    served-Keeps events = record {
      at = λ r w w' v e. elim (Option-cases (w.clients p)) [
        | inl gone ↦ absurd (ground arith)
        | inr (c, there) ↦ elim (Bool-cases (is_connected c.state)) [
          | inl open_to ↦
              device_client_process-KeepsSound env fuel c.connect_device p events r w w' v
                (ground arith)
          | inr other ↦
              own_events_sound events.pollin events.pollout c r w w' v there other (ground arith)
        ]
      ];
    }

  pub client_process-Keeps :
      (fuel fd : ℕ) (events : Events) → Keeps (client_process env fuel fd events)
  unfolding client_process served
  client_process-Keeps fuel fd events =
      search (keeps_rules, first_client-Keeps, λ (p : ℕ). served-Keeps fuel p events) depth 8

-- ===== src/Main/Loop.antt =====
-- The event loop: `handle_signal` and `main_loop` of src/main.c, with `usb_get_fds` of src/usb.c.
pub mod Asked
pub mod Sound
pub mod Stops
use usbmuxd_win_mce.Base.{
  ℕ, zero, suc, ◌+◌, Bool, true, false, not, Option, none, some, List, [], ◌∷◌, ℤ, pos, neg, is_neg,
  ltb, if◌then◌else◌,
}
use usbmuxd_win_mce.State.{World, Events}
use usbmuxd_win_mce.State.Monad.{M, pure, ◌>>=◌, ◌>>◌, skip, faults, maybe, get, modify_bus, tick}
use usbmuxd_win_mce.Env.{Env}
use usbmuxd_win_mce.Utils.{
  FdOwner, fd_listen, fd_client, fd_usb, PollFd, FdList, fdlist_create, fdlist_add, fdlist_add_all,
  fdlist_reset,
}
use usbmuxd_win_mce.Client.Process.{client_accept, client_process, client_get_fds}
use usbmuxd_win_mce.Device.Info.{device_get_count}
use usbmuxd_win_mce.Device.Timeout.{device_get_timeout, device_check_timeouts}
use usbmuxd_win_mce.Usb.Discovery.{usb_get_timeout, usb_process, usb_discover}
use usbmuxd_win_mce.Main.Host.{
  Host, Signal, sigint, sigquit, sigterm, sigusr1, sigusr2, Polled, interrupted, failed, idle,
  ready,
}

abbrev pub exits : M (Unit {0})
exits = modify_bus (λ b. record b { should_exit = true })

-- SIGUSR1 ends the daemon if no device is there, SIGUSR2 makes it look for devices; both only if that
-- was enabled.
unfoldable pub handle_signal : Bool → Signal → M (Unit {0})
handle_signal enable_exit sigint = exits
handle_signal enable_exit sigquit = exits
handle_signal enable_exit sigterm = exits
handle_signal enable_exit sigusr1 =
    if enable_exit
    then (do count ← device_get_count true; if ltb 0 count then skip else exits)
    else skip
handle_signal enable_exit sigusr2 =
    if enable_exit then modify_bus (λ b. record b { should_discover = true }) else skip

unfoldable pub handle_signals : Bool → List Signal → M (Unit {0})
unfolding handle_signal
handle_signals enable_exit [] = skip
handle_signals enable_exit (s ∷ ss) = do handle_signal enable_exit s; handle_signals enable_exit ss

-- How a turn of the loop ends: with another turn, with the loop's result 0, or with its result -1.
pub data Turn : Type 0 where
  goes_on breaks fails : Turn

abbrev pub turn_of : ℤ → Turn
turn_of res = if is_neg res then fails else goes_on

abbrev pub is_going : Turn → Bool
is_going goes_on = true
is_going _ = false

abbrev pub result_of : Turn → ℤ
result_of fails = neg 1
result_of _ = pos 0

module _ (env : Env) where
  -- The descriptors of libusb.
  unfoldable pub usb_get_fds : FdList → M FdList
  usb_get_fds l = do
    call ← tick
    maybe (env.libusb.get_pollfds call) (pure l) (λ fds. pure (fdlist_add_all l fd_usb fds))

  -- The list of a turn.
  unfoldable pub fill_fds : ℕ → FdList → M FdList
  unfolding usb_get_fds
  fill_fds listenfd l = do
    l' ←
        usb_get_fds (
          fdlist_add (fdlist_reset l) fd_listen listenfd
            (record { pollin = true; pollout = false }))
    clients ← client_get_fds
    pure (fdlist_add_all l' fd_client clients)

  module _ (host : Host) (enable_exit : Bool) (fuel rounds listenfd : ℕ) where
    -- A descriptor with events; the flag says whether libusb had its turn.
    unfoldable pub serve_fd : FdOwner → ℕ → Events → Bool → M (Turn × Bool)
    serve_fd fd_usb fd revents done_usb =
        if done_usb
        then pure (goes_on, true)
        else (do res ← usb_process env fuel rounds; pure (turn_of res, true))
    serve_fd fd_listen fd revents done_usb = do
      res ← client_accept env listenfd
      pure (turn_of res, done_usb)
    serve_fd fd_client fd revents done_usb = do
      client_process env fuel fd revents
      pure (goes_on, done_usb)

    unfoldable pub serve_fds : ℕ → ℕ → Bool → List PollFd → M Turn
    unfolding serve_fd
    serve_fds call i done_usb [] = pure goes_on
    serve_fds call i done_usb (p ∷ ps) =
        maybe (host.revents call i) (serve_fds call (suc i) done_usb ps) (λ revents. do
          (turn, done_usb') ← serve_fd p.owner p.fd revents done_usb
          if is_going turn then serve_fds call (suc i) done_usb' ps else pure turn)

    -- A signal ended the wait.
    unfoldable pub on_interrupt : M Turn
    on_interrupt = do
      b ← get (λ w. w.bus)
      if b.should_exit
          then pure breaks
          else if b.should_discover
          then (do
            modify_bus (λ b'. record b' { should_discover = false })
            _ ← usb_discover env fuel rounds
            pure goes_on)
          else pure goes_on

    -- No event came in time.
    unfoldable pub on_timeout : M Turn
    on_timeout = do
      res ← usb_process env fuel rounds
      if is_neg res then pure fails else (do device_check_timeouts env fuel; pure goes_on)

    unfoldable pub on_polled : ℕ → List PollFd → Polled → M Turn
    unfolding on_interrupt on_timeout serve_fds
    on_polled call pollfds interrupted = on_interrupt
    on_polled call pollfds failed = pure goes_on
    on_polled call pollfds idle = on_timeout
    on_polled call pollfds ready = serve_fds call 0 false pollfds

    -- One turn of the loop. The timeouts only bound how long ppoll waits.
    unfoldable pub loop_turn : FdList → M (Turn × FdList)
    unfolding fill_fds handle_signals on_polled
    loop_turn l = do
      _ ← usb_get_timeout env
      _ ← device_get_timeout env
      l' ← fill_fds listenfd l
      call ← tick
      handle_signals enable_exit (host.signals call)
      turn ← on_polled call l'.pollfds (host.ppoll call)
      pure (turn, l')

    -- `while(!should_exit)`; a loop that takes more turns has no outcome.
    unfoldable pub main_loop_from : ℕ → FdList → M ℤ
    main_loop_from zero l = faults
    main_loop_from (suc n) l = do
      b ← get (λ w. w.bus)
      if b.should_exit then pure (pos 0) else (do
        (turn, l') ← loop_turn l
        if is_going turn then main_loop_from n l' else pure (result_of turn))

    unfoldable pub main_loop : ℕ → M ℤ
    unfolding main_loop_from
    main_loop turns = main_loop_from turns fdlist_create

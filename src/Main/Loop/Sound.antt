-- ===== src/Main/Loop/Sound.antt =====
-- The event loop keeps the buffers of every client (src/main.c): the invariant of the whole daemon.
use usbmuxd_win_mce.Base.{ℕ, ◌≡◌, zero, suc, Bool, false, Option, List, [], ◌∷◌, ℤ}
use usbmuxd_win_mce.State.{World, Events}
use usbmuxd_win_mce.State.Monad.{done}
use usbmuxd_win_mce.Env.{Env}
use usbmuxd_win_mce.Utils.{FdOwner, fd_listen, fd_client, fd_usb, PollFd, FdList, fdlist_create}
use usbmuxd_win_mce.Client.Socket.Sound.{AllSound}
use usbmuxd_win_mce.Client.Keeps.{Keeps, keeps_rules}
use usbmuxd_win_mce.Client.Process.{fds_of, client_get_fds}
use usbmuxd_win_mce.Client.Process.Sound.{client_accept-Keeps, client_process-Keeps}
use usbmuxd_win_mce.Device.Lookup.{load_conns}
use usbmuxd_win_mce.Device.Info.{count_from, device_get_count}
use usbmuxd_win_mce.Device.Timeout.{oldest_of, device_get_timeout}
use usbmuxd_win_mce.Device.Registry.Sound.{device_check_timeouts-Keeps, mstime64-Keeps}
use usbmuxd_win_mce.Usb.Discovery.Sound.{
  usb_get_timeout-Keeps, usb_discover-Keeps, usb_process-Keeps,
}
use usbmuxd_win_mce.Main.Host.{
  Host, Signal, sigint, sigquit, sigterm, sigusr1, sigusr2, Polled, interrupted, failed, idle,
  ready,
}
use usbmuxd_win_mce.Main.Loop.{
  handle_signal, handle_signals, usb_get_fds, fill_fds, serve_fd, serve_fds, on_interrupt,
  on_timeout, on_polled, loop_turn, main_loop_from, main_loop,
}

load_conns-Keeps : (l : List ℕ) → Keeps (load_conns l)
unfolding load_conns
load_conns-Keeps [] = search keeps_rules
load_conns-Keeps (p ∷ ps) = let rest = load_conns-Keeps ps in search keeps_rules

count_from-Keeps : (hidden : Bool) (l : List ℕ) → Keeps (count_from hidden l)
unfolding count_from
count_from-Keeps hidden [] = search keeps_rules
count_from-Keeps hidden (p ∷ ps) = let rest = count_from-Keeps hidden ps in search keeps_rules

device_get_count-Keeps : (hidden : Bool) → Keeps (device_get_count hidden)
unfolding device_get_count
device_get_count-Keeps hidden = search (keeps_rules, count_from-Keeps)

oldest_of-Keeps : (acc : Option ℕ) (l : List ℕ) → Keeps (oldest_of acc l)
unfolding oldest_of
oldest_of-Keeps acc [] = search keeps_rules
oldest_of-Keeps acc (p ∷ ps) =
    let rest = λ (o : Option ℕ). oldest_of-Keeps o ps in
    search (keeps_rules, load_conns-Keeps) depth 12

handle_signal-Keeps : (enable_exit : Bool) (s : Signal) → Keeps (handle_signal enable_exit s)
unfolding handle_signal
handle_signal-Keeps enable_exit sigint = search keeps_rules
handle_signal-Keeps enable_exit sigquit = search keeps_rules
handle_signal-Keeps enable_exit sigterm = search keeps_rules
handle_signal-Keeps enable_exit sigusr1 = search (keeps_rules, device_get_count-Keeps)
handle_signal-Keeps enable_exit sigusr2 = search keeps_rules

handle_signals-Keeps : (enable_exit : Bool) (l : List Signal) → Keeps (handle_signals enable_exit l)
unfolding handle_signals
handle_signals-Keeps enable_exit [] = search keeps_rules
handle_signals-Keeps enable_exit (s ∷ ss) =
    let rest = handle_signals-Keeps enable_exit ss in search (keeps_rules, handle_signal-Keeps)

fds_of-Keeps : (l : List ℕ) → Keeps (fds_of l)
unfolding fds_of
fds_of-Keeps [] = search keeps_rules
fds_of-Keeps (p ∷ ps) = let rest = fds_of-Keeps ps in search keeps_rules

client_get_fds-Keeps : Keeps client_get_fds
unfolding client_get_fds
client_get_fds-Keeps = search (keeps_rules, fds_of-Keeps)

module _ (env : Env) where
  device_get_timeout-Keeps : Keeps (device_get_timeout env)
  unfolding device_get_timeout
  device_get_timeout-Keeps = search (keeps_rules, oldest_of-Keeps, mstime64-Keeps) depth 8

  usb_get_fds-Keeps : (l : FdList) → Keeps (usb_get_fds env l)
  unfolding usb_get_fds
  usb_get_fds-Keeps l = search keeps_rules

  fill_fds-Keeps : (listenfd : ℕ) (l : FdList) → Keeps (fill_fds env listenfd l)
  unfolding fill_fds
  fill_fds-Keeps listenfd l = search (keeps_rules, usb_get_fds-Keeps, client_get_fds-Keeps)

  module _ (host : Host) (enable_exit : Bool) (fuel rounds listenfd : ℕ) where
    serve_fd-Keeps :
        (owner : FdOwner) (fd : ℕ) (revents : Events) (done_usb : Bool)
        → Keeps (serve_fd env host enable_exit fuel rounds listenfd owner fd revents done_usb)
    unfolding serve_fd
    serve_fd-Keeps fd_usb fd revents done_usb = search (keeps_rules, usb_process-Keeps)
    serve_fd-Keeps fd_listen fd revents done_usb = search (keeps_rules, client_accept-Keeps)
    serve_fd-Keeps fd_client fd revents done_usb = search (keeps_rules, client_process-Keeps)

    serve_fds-Keeps :
        (call i : ℕ) (done_usb : Bool) (l : List PollFd)
        → Keeps (serve_fds env host enable_exit fuel rounds listenfd call i done_usb l)
    unfolding serve_fds
    serve_fds-Keeps call i done_usb [] = search keeps_rules
    serve_fds-Keeps call i done_usb (p ∷ ps) =
        let rest = λ (b : Bool). serve_fds-Keeps call (suc i) b ps in
        search (keeps_rules, serve_fd-Keeps) depth 8

    on_interrupt-Keeps : Keeps (on_interrupt env host enable_exit fuel rounds listenfd)
    unfolding on_interrupt
    on_interrupt-Keeps = search (keeps_rules, usb_discover-Keeps) depth 8

    on_timeout-Keeps : Keeps (on_timeout env host enable_exit fuel rounds listenfd)
    unfolding on_timeout
    on_timeout-Keeps = search (keeps_rules, usb_process-Keeps, device_check_timeouts-Keeps) depth 8

    on_polled-Keeps :
        (call : ℕ) (l : List PollFd) (polled : Polled)
        → Keeps (on_polled env host enable_exit fuel rounds listenfd call l polled)
    unfolding on_polled
    on_polled-Keeps call l interrupted = on_interrupt-Keeps
    on_polled-Keeps call l failed = search keeps_rules
    on_polled-Keeps call l idle = on_timeout-Keeps
    on_polled-Keeps call l ready = serve_fds-Keeps call 0 false l

    loop_turn-Keeps : (l : FdList) → Keeps (loop_turn env host enable_exit fuel rounds listenfd l)
    unfolding loop_turn
    loop_turn-Keeps l =
        search
          (
            keeps_rules, usb_get_timeout-Keeps, device_get_timeout-Keeps, fill_fds-Keeps,
            handle_signals-Keeps, on_polled-Keeps,
          )
          depth 12

    loop_from-Keeps :
        (n : ℕ) (l : FdList) → Keeps (main_loop_from env host enable_exit fuel rounds listenfd n l)
    unfolding main_loop_from
    loop_from-Keeps zero l = search keeps_rules
    loop_from-Keeps (suc n) l =
        let rest = λ (l' : FdList). loop_from-Keeps n l' in
        search (keeps_rules, loop_turn-Keeps) depth 8

    -- Whatever libusb, the sockets, the signals and the polls bring over any number of turns of the
    -- event loop, if no freed memory is used on the way: where the buffers of every client were there as
    -- its state needs them, they are so when the loop ends.
    pub main_loop-AllSound :
        (turns : ℕ) (res : ℤ) (w w' : World)
        → AllSound w
        → main_loop env host enable_exit fuel rounds listenfd turns w ≡ done res w'
        → AllSound w'
    unfolding main_loop
    main_loop-AllSound turns res w w' v e = (loop_from-Keeps turns fdlist_create).at res w w' v e

-- ===== src/Tests/Main.antt =====
-- The start and the loop of a small daemon.
use usbmuxd_win_mce.Base.{
  ℕ, ◌+◌, ◌≡◌, ◌⊎◌, refl, true, false, none, some, List, [], ◌∷◌, pos, arith, ltb, if◌then◌else◌,
  ◌==◌, is_neg, codes,
}
use usbmuxd_win_mce.State.{World}
use usbmuxd_win_mce.State.Monad.{done}
use usbmuxd_win_mce.Utils.{FdList, fdlist_create, fdlist_add_all, fd_client}
use usbmuxd_win_mce.Utils.Growth.{IsRoomy, entry, fdlist_add_all_refines}
use usbmuxd_win_mce.Client.Socket.Sound.{AllSound}
use usbmuxd_win_mce.Client.Process.{client_accept, client_get_fds, fds_of}
use usbmuxd_win_mce.Device.Timeout.{device_get_timeout, oldest_of, oldest_in, earlier, timeout_from}
use usbmuxd_win_mce.Device.Info.{device_get_count, count_from}
use usbmuxd_win_mce.Device.Lookup.{load_conns}
use usbmuxd_win_mce.Device.Packet.{mstime64}
use usbmuxd_win_mce.Usb.Discovery.{usb_get_timeout, dev_poll_remain_ms, remain_ms, nearer}
use usbmuxd_win_mce.Main.Host.{
  SocketHost, DaemonHost, in_child, Host, Signal, sigint, sigterm, sigusr1, interrupted, ready,
}
use usbmuxd_win_mce.Main.Loop.{
  handle_signals, handle_signal, main_loop, main_loop_from, loop_turn, fill_fds, usb_get_fds,
  on_polled, on_interrupt, serve_fds, serve_fd,
}
use usbmuxd_win_mce.Main.Loop.Asked.{IsResult, main_loop_asked}
use usbmuxd_win_mce.Main.Loop.Sound.{main_loop-AllSound}
use usbmuxd_win_mce.Main.Loop.Stops.{handle_signals_stop}
use usbmuxd_win_mce.Main.Options.{Opt, Options, default_options, parse_opts, parse_opt}
use usbmuxd_win_mce.Main.Options.Usable.{IsUsable, parse_opts-IsUsable}
use usbmuxd_win_mce.Main.Instance.{check_instance}
use usbmuxd_win_mce.Main.Instance.Exclusive.{check_instance_goes_on}
use usbmuxd_win_mce.Main.Privileges.{drop_privileges}
use usbmuxd_win_mce.Main.Privileges.Changed.{AreDropped, drop_privileges_lem}
use usbmuxd_win_mce.Main.Daemon.{daemonize, notify_parent, write_lockfile}
use usbmuxd_win_mce.Main.Socket.{create_socket}
use usbmuxd_win_mce.Main.Socket.Listening.{
  Standing, nothing, after_calls, result_of, create_socket_lem,
}
use usbmuxd_win_mce.Main.Service.{main, stopped}
use usbmuxd_win_mce.Main.Service.Told.{IsTold, main_tells}
use usbmuxd_win_mce.Tests.Sample.{sample_env, sample_world, after}
use usbmuxd_win_mce.Tests.Sound.{sample_world-AllSound}

-- The first address is in use.
abbrev sample_sockets : SocketHost
sample_sockets = record {
  getaddrinfo = λ name service. some 2;
  socket = λ i. pos (i + 3);
  set_reuseaddr = λ i. true;
  bind = λ i. i == 1;
  stat_is_socket = λ path. none;
  unlink_error = λ path. none;
  local_socket = pos 3;
  local_bind = λ path. true;
  get_flags = pos 0;
  set_nonblocking = true;
  listen = λ fd. true;
}

-- The child of the child.
abbrev sample_daemon : DaemonHost
sample_daemon = record {
  is_daemon = false;
  pipe = pos 0;
  fork = in_child;
  second_fork = in_child;
  child_status = none;
  setsid = true;
  chdir = true;
  redirect_stdin = true;
  redirect_stdout = true;
  redirect_stderr = true;
  notify = λ status. pos 4;
  create_lockfile = pos 3;
  set_lock = pos 0;
  getpid = 140;
  write_pid = pos 3;
  stat_config_dir = true;
  mkdir_config_dir = true;
  stat_made_dir = true;
}

-- The socket has a client first, then SIGTERM arrives. Process 12 holds the lock.
abbrev sample_host : Host
sample_host = record {
  sockets = sample_sockets;
  daemon = sample_daemon;
  ppoll = λ call. if ltb call 8 then ready else interrupted;
  signals = λ call. if ltb call 8 then [] else sigterm ∷ [];
  revents = λ call i. if i == 0 then some (record { pollin = true; pollout = false }) else none;
  open_lockfile = pos 3;
  lock_holder = some 12;
  is_running = λ pid. true;
  kill = λ pid sig. pos 0;
  is_root = true;
  getpwnam = λ user. some (record { uid = 140; gid = 46 });
  initgroups = λ gid. pos 0;
  setgid = λ gid. pos 0;
  setuid = λ uid. pos 0;
  can_return = false;
  getuid = 140;
  getgid = 46;
}

main_loop-AllSound_example :
    AllSound (after (main_loop sample_env sample_host false 5 3 4 3 sample_world))
unfolding main_loop loop_turn usb_get_timeout dev_poll_remain_ms remain_ms nearer device_get_timeout
    oldest_of oldest_in earlier timeout_from load_conns mstime64 fill_fds usb_get_fds fdlist_add_all
    client_get_fds fds_of handle_signals handle_signal on_polled on_interrupt serve_fds serve_fd
    client_accept main_loop_from
main_loop-AllSound_example =
    main_loop-AllSound sample_env sample_host false 5 3 4 3 (pos 0) sample_world _
      sample_world-AllSound refl

-- SIGUSR1 and SIGINT arrive at once.
abbrev signalled_host : Host
signalled_host = record sample_host {
  ppoll = λ call. interrupted;
  signals = λ call. sigusr1 ∷ sigint ∷ [];
}

abbrev loop_start : World
loop_start = after (usb_get_timeout sample_env sample_world)

abbrev with_timeouts : World
with_timeouts = after (device_get_timeout sample_env loop_start)

abbrev with_fds : World
with_fds = after (fill_fds sample_env 4 fdlist_create with_timeouts)

abbrev signalled_world : World
signalled_world =
    after
      (handle_signals true (sigusr1 ∷ sigint ∷ []) (record with_fds { calls = with_fds.calls + 1 }))

handle_signals_stop_example :
    main_loop_from sample_env signalled_host true 5 3 4 7 fdlist_create sample_world
    ≡ done (pos 0) signalled_world
unfolding handle_signals handle_signal device_get_count count_from usb_get_timeout
    dev_poll_remain_ms remain_ms nearer device_get_timeout oldest_of oldest_in earlier timeout_from
    load_conns mstime64 fill_fds usb_get_fds fdlist_add_all client_get_fds fds_of
handle_signals_stop_example =
    handle_signals_stop sample_env signalled_host true 5 3 4 6 _ _ fdlist_create _ sample_world
      loop_start with_timeouts with_fds signalled_world refl refl refl refl refl refl refl

main_loop_asked_example :
    IsResult sample_env sample_host false 5 3 4
      (pos 0)
      (after (main_loop sample_env sample_host false 5 3 4 3 sample_world))
unfolding main_loop loop_turn usb_get_timeout dev_poll_remain_ms remain_ms nearer device_get_timeout
    oldest_of oldest_in earlier timeout_from load_conns mstime64 fill_fds usb_get_fds fdlist_add_all
    client_get_fds fds_of handle_signals handle_signal on_polled on_interrupt serve_fds serve_fd
    client_accept main_loop_from
main_loop_asked_example =
    main_loop_asked sample_env sample_host false 5 3 4 3 (pos 0) sample_world _ refl

abbrev one_client : FdList
one_client =
    fdlist_add_all fdlist_create fd_client ((7, record { pollin = true; pollout = false }) ∷ [])

fdlist_add_all_refines_example :
    (one_client.pollfds ≡ entry fd_client (7, record { pollin = true; pollout = false }) ∷ [])
    × IsRoomy one_client
fdlist_add_all_refines_example =
    fdlist_add_all_refines fdlist_create fd_client
      ((7, record { pollin = true; pollout = false }) ∷ [])
      (record { fits = omega arith; some_room = omega arith })

default_options-IsUsable : IsUsable default_options
default_options-IsUsable = record {
  address = refl;
  lock = refl;
  exit_has_signal = refl;
  drop_has_user = refl;
}

-- --exit --user u
abbrev exit_options : Options
exit_options = record default_options {
  opt_exit = true;
  exit_signal = some sigusr1;
  drop_privileges = true;
  drop_user = some (b'u' ∷ []);
}

parse_opts-IsUsable_example : IsUsable exit_options
unfolding parse_opts parse_opt
parse_opts-IsUsable_example =
    parse_opts-IsUsable (λ path. true) (Opt.exit ∷ Opt.user (b'u' ∷ []) ∷ []) default_options
      exit_options default_options-IsUsable refl

abbrev one_signal : List (ℕ × Signal)
one_signal = (12, sigusr1) ∷ []

abbrev free_host : Host
free_host = record sample_host { lock_holder = none }

check_instance_goes_on_example :
    (default_options.opt_exit ≡ false)
    × ((default_options.lockfile ≡ none)
        ⊎ ((free_host.lock_holder ≡ none) × (is_neg free_host.open_lockfile ≡ false)))
unfolding check_instance
check_instance_goes_on_example = check_instance_goes_on free_host default_options refl

drop_privileges_lem_example :
    AreDropped sample_host exit_options (drop_privileges sample_host exit_options)
drop_privileges_lem_example = drop_privileges_lem sample_host exit_options

-- A child of the first process that cannot listen.
abbrev deaf_host : Host
deaf_host = record sample_host {
  lock_holder = none;
  sockets = record sample_sockets { listen = λ fd. false };
}

main_tells_example : IsTold sample_daemon (stopped 1 true (1 ∷ []))
unfolding main check_instance daemonize write_lockfile notify_parent create_socket
main_tells_example =
    main_tells sample_env deaf_host 5 3 4 default_options (stopped 1 true (1 ∷ [])) sample_world
      (after (main sample_env deaf_host 5 3 4 default_options sample_world)) refl

create_socket_lem_example :
    (st : Standing) × (after_calls nothing
        (create_socket sample_sockets (some (codes "::1:27015"))).1
      ≡ some st)
    × ((create_socket sample_sockets (some (codes "::1:27015"))).0 ≡ result_of st)
create_socket_lem_example = create_socket_lem sample_sockets (some (codes "::1:27015"))

-- ===== src/Main/Service.antt =====
-- The daemon from its start to its end: main of src/main.c behind parse_opts.
pub mod Told
use usbmuxd_win_mce.Base.{
  ℕ, Bool, true, false, not, ◌&&◌, Option, none, some, List, [], ◌∷◌, ℤ, is_neg, pos_part,
  if◌then◌else◌,
}
use usbmuxd_win_mce.State.Monad.{M, pure, ◌>>=◌, ◌>>◌, skip, when, maybe, modify_bus}
use usbmuxd_win_mce.Env.{Env}
use usbmuxd_win_mce.Conf.Paths.{config_get_config_dir, config_set_config_dir}
use usbmuxd_win_mce.Client.Process.{client_init, client_shutdown}
use usbmuxd_win_mce.Device.Registry.{device_init, device_kill_connections, device_shutdown}
use usbmuxd_win_mce.Usb.Discovery.{usb_init, usb_autodiscover, usb_process_timeout, usb_shutdown}
use usbmuxd_win_mce.Main.Host.{Host, DaemonHost}
use usbmuxd_win_mce.Main.Instance.{check_instance, Verdict, terminates, exit_status}
use usbmuxd_win_mce.Main.Instance
use usbmuxd_win_mce.Main.Daemon.{
  Process, continues, fails, exits, daemonize, notify_parent, write_lockfile, make_config_dir,
}
use usbmuxd_win_mce.Main.Socket.{create_socket}
use usbmuxd_win_mce.Main.Privileges.{drop_privileges, Dropped, keeps, drops, refuses}
use usbmuxd_win_mce.Main.Loop.{main_loop}
use usbmuxd_win_mce.Main.Options.{Options}

-- How the process ends: in daemonize, as a parent; with a status before it served; or with a status
-- after it was ready to. The flag says whether a parent waits for a status, and the list what it was told,
-- as far as the pipe took it.
pub data Ended : Type 0 where
  as_parent : ℕ → Ended
  stopped served : ℕ → Bool → List ℕ → Ended

-- The label `terminate`: the result of notify_parent is not looked at.
abbrev pub terminate : DaemonHost → ℤ → Bool → Ended
terminate host res report =
    stopped (exit_status res) report
      (if report then (notify_parent host (exit_status res)).1 else [])

-- `turns` bounds the loops of main_loop and of usb_process_timeout; a run that needs more has no
-- outcome.
module _ (env : Env) (host : Host) (fuel rounds turns : ℕ) where
  -- The end: `device_kill_connections` waits for what it sends with usb_process_timeout.
  unfoldable pub shut_down : M (Unit {0})
  shut_down = do
    device_kill_connections env fuel
    _ ← usb_process_timeout env fuel rounds turns 100
    usb_shutdown env fuel rounds
    device_shutdown env fuel
    client_shutdown env fuel

  unfoldable pub run_loop : Options → ℕ → M ℤ
  unfolding shut_down
  run_loop o listenfd = do
    when o.disable_hotplug (usb_autodiscover false)
    res ← main_loop env host o.enable_exit fuel rounds listenfd turns
    shut_down
    pure res

  -- Initialization is complete. A parent is told 0, and nothing more, also where that fails.
  unfoldable pub ready_to_serve : Options → Bool → ℕ → M Ended
  unfolding run_loop
  ready_to_serve o report listenfd =
      let notified = notify_parent host.daemon 0 in
      let told = if report then notified.1 else [] in
      if report && is_neg notified.0
      then pure (served (exit_status notified.0) report told)
      else (do res ← run_loop o listenfd; pure (served (exit_status res) report told))

  unfoldable pub serve : Options → Bool → ℕ → M Ended
  unfolding ready_to_serve
  serve o report listenfd = do
    client_init
    device_init
    res ← usb_init env fuel rounds
    if is_neg res then pure (terminate host.daemon res report) else ready_to_serve o report listenfd

  unfoldable pub with_privileges : Options → Bool → ℕ → Dropped → M Ended
  with_privileges o report listenfd (refuses res calls) = pure (terminate host.daemon res report)
  with_privileges o report listenfd keeps = serve o report listenfd
  with_privileges o report listenfd (drops calls) = serve o report listenfd

  unfoldable pub with_socket : Options → Bool → ℕ → M Ended
  unfolding with_privileges
  with_socket o report listenfd =
      let rest = with_privileges o report listenfd (drop_privileges host o) in
      if env.have_libimobiledevice
      then (do
        userprefdir ← config_get_config_dir
        maybe (make_config_dir host.daemon) rest (λ res. pure (terminate host.daemon res report)))
      else rest

  unfoldable pub with_lockfile : Options → Bool → M Ended
  unfolding with_socket
  with_lockfile o report =
      let listenfd = (create_socket host.sockets o.listen_addr).0 in
      if is_neg listenfd
      then pure (terminate host.daemon listenfd report)
      else with_socket o report (pos_part listenfd)

  unfoldable pub as_process : Options → Process → M Ended
  unfolding with_lockfile
  as_process o (exits status) = pure (as_parent status)
  as_process o (fails res report) = pure (terminate host.daemon res report)
  as_process o (continues report) = maybe o.lockfile (with_lockfile o report) (λ path.
      maybe (write_lockfile host.daemon) (with_lockfile o report)
        (λ res. pure (terminate host.daemon res report)))

  unfoldable pub with_verdict : Options → Verdict → M Ended
  unfolding as_process
  with_verdict o (terminates res sent) = pure (terminate host.daemon res false)
  with_verdict o Instance.goes_on =
      as_process o (if o.foreground then continues false else daemonize host.daemon)

  -- The directory of the option --config-dir is set while the options are parsed.
  unfoldable pub main : Options → M Ended
  unfolding with_verdict
  main o = do
    maybe o.config_dir skip (λ dir. do _ ← config_set_config_dir env (some dir); skip)
    modify_bus (λ b. record b { should_exit = false; should_discover = false })
    with_verdict o (check_instance host o)

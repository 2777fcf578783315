-- ===== src/Main/Daemon.antt =====
-- Becoming a daemon: daemonize, notify_parent, and the lock file that main writes (src/main.c).
use usbmuxd_win_mce.Base.{
  ℕ, Bool, true, false, not, ◌||◌, ◌&&◌, Option, none, some, List, [], ◌∷◌, ℤ, pos, neg, is_neg,
  ◌==◌, if◌then◌else◌, length, decimal,
}
use usbmuxd_win_mce.Main.Host.{DaemonHost, fork_failed, in_parent, in_child}

-- This process goes on, with a result that is not negative; it fails, with the result; or it exits. The
-- flag is `report_to_parent`.
pub data Process : Type 0 where
  continues : Bool → Process
  fails : ℤ → Bool → Process
  exits : ℕ → Process

-- sizeof(int)
abbrev pub int_size : ℕ
int_size = 4

-- The comparison of an int with a size.
abbrev pub equals : ℕ → ℤ → Bool
equals n (pos m) = n == m
equals n _ = false

module _ (host : DaemonHost) where
  -- The parent leaves with the status of its child.
  abbrev pub parent_exit : ℕ
  parent_exit = elim host.child_status [ none ↦ 1 | some status ↦ status ]

  -- The child of the child.
  unfoldable pub detach : Process
  detach =
      if not host.chdir
      then fails (neg 2) true
      else if not host.redirect_stdin || not host.redirect_stdout
      then fails (neg 3) true
      else continues true

  -- The child.
  unfoldable pub become_leader : Process
  unfolding detach
  become_leader = if not host.setsid then fails (neg 1) true else elim host.second_fork [
    | fork_failed ↦ fails (neg 1) true
    | in_parent ↦ exits 0
    | in_child ↦ detach
  ]

  unfoldable pub daemonize : Process
  unfolding become_leader
  daemonize =
      if host.is_daemon
      then continues false
      else if is_neg host.pipe
      then fails host.pipe false
      else elim host.fork [
        | fork_failed ↦ fails (neg 1) false
        | in_parent ↦ exits parent_exit
        | in_child ↦ become_leader
      ]

  -- A status is written to the pipe, once: `report_to_parent` is 0 from then on. The result, and what the
  -- parent is told: the status, if all of it was written.
  unfoldable pub notify_parent : ℕ → ℤ × List ℕ
  notify_parent status =
      let res = host.notify status in
      if equals int_size res
      then (if host.redirect_stderr then pos 0 else neg 1, status ∷ [])
      else (if is_neg res then res else neg 2, [])

  -- The lock file with the lock and the process id; `none`, or the result with which main terminates.
  unfoldable pub write_lockfile : Option ℤ
  write_lockfile =
      let pids = decimal 10 host.getpid [] in
      if is_neg host.create_lockfile
      then some host.create_lockfile
      else if is_neg host.set_lock
      then some host.set_lock
      else if is_neg host.write_pid
      then some host.write_pid
      else if equals (length pids) host.write_pid
      then none
      else some (neg 2)

  -- The configuration directory, which is made if it is missing.
  unfoldable pub make_config_dir : Option ℤ
  make_config_dir =
      if host.stat_config_dir
      then none
      else if host.mkdir_config_dir && host.stat_made_dir
      then none
      else some (neg 1)

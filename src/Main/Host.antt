-- ===== src/Main/Host.antt =====
-- What src/main.c asks of the operating system. A call that may answer differently each time takes its
-- number; one that main makes once does not.
use usbmuxd_win_mce.Base.{ℕ, Bool, List, Option, ℤ}
use usbmuxd_win_mce.State.{Events}

-- The signals that are handled.
pub data Signal : Type 0 where
  sigint sigquit sigterm sigusr1 sigusr2 : Signal

-- How ppoll ends: with errno EINTR, with another error, without an event in time, or with events.
pub data Polled : Type 0 where
  interrupted failed idle ready : Polled

-- An entry of the password file.
pub record Passwd : Type 0 where
  pub uid : ℕ
  pub gid : ℕ

-- What create_socket asks: the calls for the address at a place of getaddrinfo's list, and those for a
-- local socket. The option IPV6_V6ONLY is left out, since its failure is only logged. A call that can only succeed or fail is true where it succeeds.
pub record SocketHost : Type 0 where
  -- getaddrinfo of a host name and a port: how many addresses, `none` for an error
  pub getaddrinfo : List ℕ → List ℕ → Option ℕ
  pub socket : ℕ → ℤ
  pub set_reuseaddr : ℕ → Bool
  pub bind : ℕ → Bool
  -- stat of a path: is it a socket, if there is something?
  pub stat_is_socket : List ℕ → Option Bool
  -- unlink of a path: the errno, of a call that fails
  pub unlink_error : List ℕ → Option ℕ
  pub local_socket : ℤ
  pub local_bind : List ℕ → Bool
  pub get_flags : ℤ
  pub set_nonblocking : Bool
  pub listen : ℕ → Bool

-- How fork returns, in the process that it returns in.
pub data Forked : Type 0 where
  fork_failed in_parent in_child : Forked

-- What daemonize, notify_parent and the writing of the lock file ask.
pub record DaemonHost : Type 0 where
  -- getppid() is 1
  pub is_daemon : Bool
  pub pipe : ℤ
  pub fork : Forked
  pub second_fork : Forked
  -- the status that the child writes to the pipe, `none` if read gives less
  pub child_status : Option ℕ
  pub setsid : Bool
  pub chdir : Bool
  pub redirect_stdin : Bool
  pub redirect_stdout : Bool
  pub redirect_stderr : Bool
  -- the result of the write to the pipe
  pub notify : ℕ → ℤ
  -- open of the lock file with O_EXCL, fcntl with F_SETLK, the process id, the result of its write
  pub create_lockfile : ℤ
  pub set_lock : ℤ
  pub getpid : ℕ
  pub write_pid : ℤ
  -- stat of the configuration directory, mkdir, and stat again
  pub stat_config_dir : Bool
  pub mkdir_config_dir : Bool
  pub stat_made_dir : Bool

pub record Host : Type 0 where
  pub sockets : SocketHost
  pub daemon : DaemonHost
  pub ppoll : ℕ → Polled
  -- the signals that arrive while ppoll has them unmasked
  pub signals : ℕ → List Signal
  -- the events of the descriptor at a place of the list, where it has any
  pub revents : ℕ → ℕ → Option Events
  -- The lock file: the result of open, and the process that holds its lock (F_GETLK)
  pub open_lockfile : ℤ
  pub lock_holder : Option ℕ
  -- kill(pid, 0) is 0; the result of kill with a signal
  pub is_running : ℕ → Bool
  pub kill : ℕ → Signal → ℤ
  -- The privileges: is a uid of the process 0, getpwnam, the calls that change ids, the ids after them
  pub is_root : Bool
  pub getpwnam : List ℕ → Option Passwd
  pub initgroups : ℕ → ℤ
  pub setgid : ℕ → ℤ
  pub setuid : ℕ → ℤ
  -- setuid(0) after the change does not fail
  pub can_return : Bool
  pub getuid : ℕ
  pub getgid : ℕ

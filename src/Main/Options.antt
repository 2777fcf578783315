-- ===== src/Main/Options.antt =====
-- The command line: `parse_opts` of src/main.c over what getopt_long finds.
pub mod Usable
use usbmuxd_win_mce.Base.{
  ℕ, ◌+◌, Bool, true, false, not, ◌||◌, ◌&&◌, Option, none, some, List, [], ◌∷◌, ◌++◌, codes, take,
  bytes_eq, ◌==◌, if◌then◌else◌,
}
use usbmuxd_win_mce.Main.Host.{Signal, sigterm, sigusr1}

-- The options by their letters in the source, with their arguments; `port` is 1000 and `other` what
-- getopt_long does not know.
pub data Opt : Type 0 where
  help foreground verbose version no_preflight udev systemd disable_hotplug enable_exit : Opt
  exit force_exit other : Opt
  user config_dir socket pidfile logfile port : List ℕ → Opt

-- The globals that the options set.
pub record Options : Type 0 where
  pub foreground : Bool
  pub verbose : ℕ
  pub drop_privileges : Bool
  pub drop_user : Option (List ℕ)
  pub no_preflight : Bool
  pub disable_hotplug : Bool
  pub enable_exit : Bool
  pub config_dir : Option (List ℕ)
  pub listen_addr : Option (List ℕ)
  pub lockfile : Option (List ℕ)
  pub opt_exit : Bool
  pub exit_signal : Option Signal
  pub use_logfile : Bool

-- The process goes on, or it exits with a status.
pub data Parsed : Type 0 where
  runs : Options → Parsed
  quits : ℕ → Parsed

abbrev pub default_options : Options
default_options = record {
  foreground = false;
  verbose = 0;
  drop_privileges = false;
  drop_user = none;
  no_preflight = false;
  disable_hotplug = false;
  enable_exit = false;
  config_dir = none;
  listen_addr = none;
  lockfile = some (codes "/var/run/usbmuxd.pid");
  opt_exit = false;
  exit_signal = none;
  use_logfile = false;
}

-- `!*optarg`
abbrev pub is_blank : List ℕ → Bool
is_blank [] = true
is_blank (x ∷ xs) = x == 0

-- `!*optarg || *optarg == '-'`
abbrev pub is_no_argument : List ℕ → Bool
is_no_argument [] = true
is_no_argument (x ∷ xs) = (x == 0) || (x == b'-')

-- snprintf into 32 bytes
abbrev pub port_address : List ℕ → List ℕ
port_address arg = take 31 (codes "127.0.0.1:" ++ arg)

-- One option. `reopened` says whether freopen of a log file succeeds; malloc does.
unfoldable pub parse_opt : (List ℕ → Bool) → Options → Opt → Parsed
parse_opt reopened o help = quits 0
parse_opt reopened o foreground = runs (record o { foreground = true })
parse_opt reopened o verbose = runs (record o { verbose = o.verbose + 1 })
parse_opt reopened o version = quits 0
parse_opt reopened o (user arg) = runs (record o { drop_privileges = true; drop_user = some arg })
parse_opt reopened o no_preflight = runs (record o { no_preflight = true })
parse_opt reopened o udev = runs (record o { disable_hotplug = true; enable_exit = true })
parse_opt reopened o systemd = runs (record o { enable_exit = true; foreground = true })
parse_opt reopened o disable_hotplug = runs (record o { disable_hotplug = true })
parse_opt reopened o enable_exit = runs (record o { enable_exit = true })
parse_opt reopened o (config_dir arg) =
    if is_blank arg then quits 2 else runs (record o { config_dir = some arg })
parse_opt reopened o (socket arg) =
    if is_no_argument arg then quits 2 else runs (record o { listen_addr = some arg })
parse_opt reopened o (pidfile arg) =
    if is_no_argument arg
    then quits 2
    else if bytes_eq arg (codes "NONE")
    then runs (record o { lockfile = none })
    else runs (record o { lockfile = some arg })
parse_opt reopened o exit = runs (record o { opt_exit = true; exit_signal = some sigusr1 })
parse_opt reopened o force_exit = runs (record o { opt_exit = true; exit_signal = some sigterm })
parse_opt reopened o (logfile arg) =
    if is_blank arg || o.use_logfile
    then quits 2
    else runs (if reopened arg then record o { use_logfile = true } else o)
parse_opt reopened o (port arg) =
    if is_no_argument arg
    then quits 2
    else runs (record o { listen_addr = some (port_address arg) })
parse_opt reopened o other = quits 2

unfoldable pub parse_opts : (List ℕ → Bool) → Options → List Opt → Parsed
unfolding parse_opt
parse_opts reopened o [] = runs o
parse_opts reopened o (x ∷ xs) = elim (parse_opt reopened o x) [
  | quits status ↦ quits status
  | runs o' ↦ parse_opts reopened o' xs
]

-- `verbose` as main sets the level: LL_WARNING to syslog, LL_NOTICE to a console or a file.
unfoldable pub log_level_of : Options → ℕ
log_level_of o = if not o.foreground && not o.use_logfile then o.verbose + 2 else o.verbose + 3

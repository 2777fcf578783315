-- ===== src/Log.antt =====
-- The log: src/log.c.
pub mod Room
use usbmuxd_win_mce.Base.{
  ℕ, ◌+◌, ◌-◌, ◌/◌, Bool, true, false, Option, none, some, List, [], ◌∷◌, ◌++◌, length, replicate,
  ltb, if◌then◌else◌, codes, decimal,
}

-- `log_level`, `log_syslog`, and whether the connection that openlog makes is open.
pub record Log : Type 0 where
  pub level : ℕ
  pub syslog : Bool
  pub opened : Bool

unfoldable pub log_enable_syslog : Log → Log
log_enable_syslog l = if l.syslog then l else record l { syslog = true; opened = true }

unfoldable pub log_disable_syslog : Log → Log
log_disable_syslog l = if l.syslog then record l { opened = false } else l

-- LOG_CRIT is 2 and LOG_DEBUG is 7.
unfoldable pub level_to_syslog_level : ℕ → ℕ
level_to_syslog_level level = let result = level + 2 in if ltb 7 result then 7 else result

-- The time of a message: the 9 characters that strftime writes, and the microseconds.
pub record Moment : Type 0 where
  pub clock : List ℕ
  pub usec : ℕ

-- `%03d`
unfoldable pub three_digits : ℕ → List ℕ
three_digits n = let text = decimal 10 n [] in replicate (3 - length text) b'0' ++ text

-- Where a message goes: the format that vsyslog with a priority or vfprintf on stderr gets.
pub data Written : Type 0 where
  to_syslog : ℕ → List ℕ → Written
  to_stderr : List ℕ → Written

-- The format that is made of the caller's for syslog.
unfoldable pub syslog_format : ℕ → List ℕ → List ℕ
syslog_format level fmt = codes "[" ++ decimal 10 level (codes "] " ++ fmt ++ (10 ∷ []))

-- The same for stderr.
unfoldable pub stderr_format : Moment → ℕ → List ℕ → List ℕ
stderr_format now level fmt =
    now.clock
    ++ codes "."
    ++ three_digits (now.usec / 1000)
    ++ codes "]["
    ++ decimal 10 level (codes "] " ++ fmt ++ (10 ∷ []))

unfoldable pub usbmuxd_log : Log → Moment → ℕ → List ℕ → Option Written
usbmuxd_log l now level fmt =
    if ltb l.level level
    then none
    else if l.syslog
    then some (to_syslog (level_to_syslog_level level) (syslog_format level fmt))
    else some (to_stderr (stderr_format now level fmt))

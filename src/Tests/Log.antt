-- ===== src/Tests/Log.antt =====
-- A message on stderr.
use usbmuxd_win_mce.Base.{◌+◌, ◌≤◌, ◌≡◌, refl, false, some, codes, length, arith}
use usbmuxd_win_mce.Log.{Log, Moment, Written, usbmuxd_log}
use usbmuxd_win_mce.Log.Room.{text_of, usbmuxd_log_lem}

abbrev stderr_log : Log
stderr_log = record { level = 2; syslog = false; opened = false }

abbrev afternoon : Moment
afternoon = record { clock = codes "[13:05:59"; usec = 42000 }

usbmuxd_log_lem_example :
    (out : Written) × (usbmuxd_log stderr_log afternoon 1 (codes "Out of memory") ≡ some out)
    × (length (text_of out) + 1 ≤ 33)
usbmuxd_log_lem_example =
    usbmuxd_log_lem stderr_log afternoon 1 (codes "Out of memory") (omega arith) (omega arith)
      (omega arith) refl

-- ===== src/Main/Instance.antt =====
-- One daemon at a time: what main does about the lock file and about another instance (src/main.c).
pub mod Exclusive
use usbmuxd_win_mce.Base.{
  ℕ, Bool, true, false, not, ◌&&◌, Option, none, some, List, [], ◌∷◌, ℤ, pos, neg, is_neg, neg_part,
  ◌==◌, if◌then◌else◌,
}
use usbmuxd_win_mce.Main.Host.{Host, Signal, sigusr1, sigusr2}
use usbmuxd_win_mce.Main.Options.{Options}

-- Main goes on, or it terminates with `res`. The list has the signals that were sent.
pub data Verdict : Type 0 where
  goes_on : Verdict
  terminates : ℤ → List (ℕ × Signal) → Verdict

module _ (host : Host) where
  -- The signal to the process that holds the lock, if it is there.
  unfoldable pub signal_holder : ℕ → Signal → Verdict
  signal_holder pid sig =
      if not (pid == 0) && host.is_running pid
      then terminates (if is_neg (host.kill pid sig) then neg 1 else pos 0) ((pid, sig) ∷ [])
      else terminates (neg 1) []

  abbrev signal_of : Option Signal → Signal
  signal_of none = sigusr1
  signal_of (some sig) = sig

  -- Another instance holds the lock.
  unfoldable pub other_instance : Options → ℕ → Verdict
  unfolding signal_holder
  other_instance o pid =
      if o.opt_exit
      then signal_holder pid (signal_of o.exit_signal)
      else if not o.disable_hotplug
      then terminates (neg 1) []
      else signal_holder pid sigusr2

  unfoldable pub check_instance : Options → Verdict
  unfolding other_instance
  check_instance o = elim o.lockfile [
    | none ↦ if o.opt_exit then terminates (pos 0) [] else goes_on
    | some path ↦
        if is_neg host.open_lockfile then terminates (neg 1) [] else elim host.lock_holder [
          | some pid ↦ other_instance o pid
          | none ↦ if o.opt_exit then terminates host.open_lockfile [] else goes_on
        ]
  ]

-- `if (res < 0) res = -res; else res = 0;`
abbrev pub exit_status : ℤ → ℕ
exit_status res = neg_part res

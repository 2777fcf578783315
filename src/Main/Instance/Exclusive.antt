-- ===== src/Main/Instance/Exclusive.antt =====
-- Two instances do not run with the same lock file (src/main.c).
use usbmuxd_win_mce.Base.{
  ℕ, ◌≡◌, ◌≢◌, ◌⊎◌, not, ◌&&◌, ◌==◌, inl, inr, true, false, Option, none, some, List, [], ◌∷◌, ℤ,
  is_neg, arith, Option-cases, Bool-cases,
}
use usbmuxd_win_mce.Main.Host.{Host, Signal}
use usbmuxd_win_mce.Main.Options.{Options}
use usbmuxd_win_mce.Main.Instance.{
  goes_on, terminates, signal_holder, other_instance, check_instance,
}

head_of : List (ℕ × Signal) → Option (ℕ × Signal)
head_of [] = none
head_of (x ∷ xs) = some x

module _ (host : Host) where
  -- Main goes on only if it was not asked to end another instance, and if the lock file, where one is
  -- used, could be opened and no process holds its lock.
  pub check_instance_goes_on :
      (o : Options)
      → check_instance host o ≡ goes_on
      → (o.opt_exit ≡ false)
        × ((o.lockfile ≡ none) ⊎ ((host.lock_holder ≡ none) × (is_neg host.open_lockfile ≡ false)))
  unfolding check_instance other_instance signal_holder
  check_instance_goes_on o e = ground arith

  -- At most one signal is sent, and only to the process that holds the lock, if it runs; and the process
  -- that sends it does not go on.
  pub check_instance_signals :
      (o : Options) (res : ℤ) (sent : List (ℕ × Signal))
      → check_instance host o ≡ terminates res sent
      → (sent ≡ [])
        ⊎ ((pid : ℕ) × (sig : Signal) × (sent ≡ (pid, sig) ∷ [])
            × (host.lock_holder ≡ some pid)
            × (host.is_running pid ≡ true)
            × (pid ≢ 0))
  unfolding check_instance other_instance signal_holder head_of
  check_instance_signals o res sent e = elim (Option-cases host.lock_holder) [
    | inl free ↦ inl (ground arith)
    | inr (pid, held) ↦ elim (Bool-cases (not (pid == 0) && host.is_running pid)) [
      | inl runs ↦ elim (Option-cases (head_of sent)) [
        | inl nothing ↦ inl (ground arith)
        | inr ((to, sig), first) ↦ inr (pid, sig, ground arith, held, ground arith, ground arith)
      ]
      | inr gone ↦ inl (ground arith)
    ]
  ]

-- ===== src/Main/Privileges.antt =====
-- The privileges are given up before the devices are served (src/main.c).
pub mod Changed
use usbmuxd_win_mce.Base.{
  ℕ, Bool, true, false, not, ◌&&◌, ◌||◌, Option, none, some, List, [], ◌∷◌, ℤ, pos, neg, is_neg,
  ◌==◌, if◌then◌else◌,
}
use usbmuxd_win_mce.Main.Host.{Host, Passwd}
use usbmuxd_win_mce.Main.Options.{Options}

-- The calls that change the ids.
pub data IdCall : Type 0 where
  calls_initgroups calls_setgid calls_setuid : ℕ → IdCall

-- Main goes on with what it had; or as the user, after the calls; or it terminates with the result,
-- after the calls.
pub data Dropped : Type 0 where
  keeps : Dropped
  drops : List IdCall → Dropped
  refuses : ℤ → List IdCall → Dropped

-- What follows a call.
abbrev pub after_call : IdCall → Dropped → Dropped
after_call call keeps = keeps
after_call call (drops calls) = drops (call ∷ calls)
after_call call (refuses res calls) = refuses res (call ∷ calls)

-- A call with its result: a negative one ends main.
abbrev pub then_goes_on : IdCall → ℤ → Dropped → Dropped
then_goes_on call res rest = if is_neg res then refuses res (call ∷ []) else after_call call rest

module _ (host : Host) where
  -- The security check: setuid(0) is to fail, and the ids are to be the user's.
  unfoldable pub check_dropped : Passwd → Dropped
  check_dropped pw = after_call (calls_setuid 0) (
      if host.can_return
      then refuses (neg 1) []
      else if not (host.getuid == pw.uid) || not (host.getgid == pw.gid)
      then refuses (neg 1) []
      else drops [])

  -- The ids of the user are taken, and it is tested that there is no way back.
  unfoldable pub become : Passwd → Dropped
  unfolding check_dropped
  become pw = then_goes_on (calls_initgroups pw.gid) (host.initgroups pw.gid) (
      then_goes_on (calls_setgid pw.gid) (host.setgid pw.gid)
        (then_goes_on (calls_setuid pw.uid) (host.setuid pw.uid) (check_dropped pw)))

  unfoldable pub drop_privileges : Options → Dropped
  unfolding become
  drop_privileges o =
      if o.drop_privileges && host.is_root
      then elim o.drop_user [
        | none ↦ refuses (neg 1) []
        | some user ↦ elim (host.getpwnam user) [
          | none ↦ refuses (neg 1) []
          | some pw ↦ if pw.uid == 0 then keeps else become pw
        ]
      ]
      else keeps

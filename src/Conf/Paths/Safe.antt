-- ===== src/Conf/Paths/Safe.antt =====
-- The names that the records are stored under (src/conf.c).
use usbmuxd_win_mce.Base.{ℕ, ◌≡◌, refl, true, false, List, [], ◌∷◌, arith, contains, ◌+◌, suc, pos}
use usbmuxd_win_mce.State.{World}
use usbmuxd_win_mce.State.Monad.{done}
use usbmuxd_win_mce.Env.{Env, mkdir_done, mkdir_failed}
use usbmuxd_win_mce.Conf.Paths.{is_valid_udid, dir_sep, mkdir_with_parents}

-- A udid that is accepted for a record names a file of the directory itself: it has no separator and
-- no dot in it.
pub is_valid_udid_lem :
    (udid : List ℕ)
    → is_valid_udid udid ≡ true
    → (contains dir_sep udid ≡ false) × (contains b'.' udid ≡ false)
unfolding is_valid_udid
is_valid_udid_lem [] h = (refl, refl)
is_valid_udid_lem (c ∷ cs) h = ground (arith, is_valid_udid_lem cs)

-- Where a directory cannot be made and its parent can, the call reports success although it has made
-- the parent only.
pub mkdir_with_parents_stops :
    (env : Env) (fuel : ℕ) (dir : List ℕ) (w : World)
    → env.mkdir w.calls dir ≡ mkdir_failed
    → env.mkdir (w.calls + 1) (env.dirname dir) ≡ mkdir_done
    → mkdir_with_parents env (suc (suc fuel)) dir w
      ≡ done (pos 0) (record w { calls = w.calls + 1 + 1; made = env.dirname dir ∷ w.made })
unfolding mkdir_with_parents
mkdir_with_parents_stops env fuel dir w f m = ground arith

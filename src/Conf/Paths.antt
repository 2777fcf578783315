-- ===== src/Conf/Paths.antt =====
-- The configuration directory and the paths in it (src/conf.c, as it is built outside Windows and
-- macOS). `string_concat` joins its arguments.
pub mod Safe
use usbmuxd_win_mce.Base.{
  ℕ, zero, suc, ◌+◌, ◌-◌, Bool, true, false, ◌&&◌, ◌||◌, Option, none, some, List, [], ◌∷◌, ◌++◌, ℤ,
  pos, neg, is_neg, ◌==◌, ltb, leb, if◌then◌else◌, codes, length,
}
use usbmuxd_win_mce.State.{World}
use usbmuxd_win_mce.State.Monad.{M, pure, maybe, ◌>>=◌, ◌>>◌, skip, get, modify, tick, deref}
use usbmuxd_win_mce.Env.{Env, MkdirResult, mkdir_done, mkdir_exists, mkdir_failed}

abbrev pub dir_sep : ℕ
dir_sep = b'/'

abbrev trim_onto : ℕ → List ℕ → List ℕ
trim_onto x [] = if x == dir_sep then [] else x ∷ []
trim_onto x (y ∷ ys) = x ∷ y ∷ ys

-- Without the separators at the end.
unfoldable pub trimmed : List ℕ → List ℕ
trimmed [] = []
trimmed (x ∷ xs) = trim_onto x (trimmed xs)

-- The loop over the end of the path keeps its first character.
unfoldable pub drop_trailing : List ℕ → List ℕ
unfolding trimmed
drop_trailing [] = []
drop_trailing (c ∷ cs) = c ∷ trimmed cs

unfoldable pub config_get_config_dir : M (List ℕ)
unfolding drop_trailing
config_get_config_dir = do
  known ← get (λ w. w.config_dir)
  maybe known
      (do
        let dir = drop_trailing (codes "/var/lib" ++ codes "/" ++ codes "lockdown")
        modify (λ w. record w { config_dir = some dir })
        pure dir)
      pure

-- The path of a file of the directory.
abbrev pub file_in : List ℕ → List ℕ → List ℕ
file_in dir name = dir ++ codes "/" ++ name ++ codes ".plist"

-- 0-9, A-Z and a-z: `isalnum` in the C locale
abbrev pub is_alnum : ℕ → Bool
is_alnum c =
    (leb b'0' c && leb c b'9') || ((leb b'A' c && leb c b'Z') || (leb b'a' c && leb c b'z'))

-- The loop of `config_set_device_record` over the udid.
unfoldable pub is_valid_udid : List ℕ → Bool
is_valid_udid [] = true
is_valid_udid (c ∷ cs) = (is_alnum c || c == b'-') && is_valid_udid cs

module _ (env : Env) where
  -- The recursion is on the path, which `dirname` shortens; `fuel` bounds its depth, and -1 beyond
  -- it stands for an error. The result is that of the parent's call.
  unfoldable pub mkdir_with_parents : ℕ → List ℕ → M ℤ
  mkdir_with_parents zero dir = pure (neg 1)
  mkdir_with_parents (suc fuel) dir = do
    call ← tick
    elim (env.mkdir call dir) [
      | mkdir_done ↦ do modify (λ w. record w { made = dir ∷ w.made }); pure (pos 0)
      | mkdir_exists ↦ pure (pos 0)
      | mkdir_failed ↦ mkdir_with_parents fuel (env.dirname dir)
    ]

  unfoldable pub config_create_config_dir : M ℤ
  config_create_config_dir = do
    dir ← config_get_config_dir
    call ← tick
    if env.stat_ok call dir then pure (pos 0) else mkdir_with_parents (suc (length dir)) dir

  unfoldable pub config_set_config_dir : Option (List ℕ) → M ℤ
  config_set_config_dir none = pure (neg 1)
  config_set_config_dir (some path) = do
    modify (λ w. record w { config_dir = some path })
    config_create_config_dir

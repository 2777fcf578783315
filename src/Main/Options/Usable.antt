-- ===== src/Main/Options/Usable.antt =====
-- What the options of a command line can be (src/main.c).
use usbmuxd_win_mce.Base.{
  ℕ, ◌≡◌, refl, Bool, true, false, not, Option, none, some, List, [], ◌∷◌, arith,
}
use usbmuxd_win_mce.Main.Options.{
  Opt, Options, Parsed, runs, quits, is_no_argument, parse_opt, parse_opts,
}

abbrev pub is_some : {A : Type 0} → Option A → Bool
is_some none = false
is_some (some a) = true

-- A path or an address, where there is one, is neither empty nor an option.
abbrev pub is_usable : Option (List ℕ) → Bool
is_usable none = true
is_usable (some arg) = not (is_no_argument arg)

-- The options fit together.
pub record IsUsable (o : Options) : Type 0 where
  pub address : is_usable o.listen_addr ≡ true
  pub lock : is_usable o.lockfile ≡ true
  pub exit_has_signal : o.opt_exit ≡ is_some o.exit_signal
  pub drop_has_user : o.drop_privileges ≡ is_some o.drop_user

parse_opt-IsUsable :
    (reopened : List ℕ → Bool) (o o' : Options) (x : Opt)
    → IsUsable o
    → parse_opt reopened o x ≡ runs o'
    → IsUsable o'
unfolding parse_opt
parse_opt-IsUsable reopened o o' Opt.help v e = ground arith
parse_opt-IsUsable reopened o o' Opt.foreground v e = ground arith
parse_opt-IsUsable reopened o o' Opt.verbose v e = ground arith
parse_opt-IsUsable reopened o o' Opt.version v e = ground arith
parse_opt-IsUsable reopened o o' Opt.no_preflight v e = ground arith
parse_opt-IsUsable reopened o o' Opt.udev v e = ground arith
parse_opt-IsUsable reopened o o' Opt.systemd v e = ground arith
parse_opt-IsUsable reopened o o' Opt.disable_hotplug v e = ground arith
parse_opt-IsUsable reopened o o' Opt.enable_exit v e = ground arith
parse_opt-IsUsable reopened o o' Opt.exit v e = ground arith
parse_opt-IsUsable reopened o o' Opt.force_exit v e = ground arith
parse_opt-IsUsable reopened o o' Opt.other v e = ground arith
parse_opt-IsUsable reopened o o' (Opt.user arg) v e = ground arith
parse_opt-IsUsable reopened o o' (Opt.config_dir arg) v e = ground arith
parse_opt-IsUsable reopened o o' (Opt.socket arg) v e = ground arith
parse_opt-IsUsable reopened o o' (Opt.pidfile arg) v e = ground arith
parse_opt-IsUsable reopened o o' (Opt.logfile arg) v e = ground arith
parse_opt-IsUsable reopened o o' (Opt.port arg) v e = ground arith

-- Options that fit together still do after those of any command line that the parser does not end the
-- process for: an address to listen on and a path of the lock file are neither empty nor look like an
-- option, a signal is known where an instance is to be ended, and a user where privileges are to be
-- dropped.
pub parse_opts-IsUsable :
    (reopened : List ℕ → Bool) (l : List Opt) (o o' : Options)
    → IsUsable o
    → parse_opts reopened o l ≡ runs o'
    → IsUsable o'
unfolding parse_opts
parse_opts-IsUsable reopened [] o o' v e = ground arith
parse_opts-IsUsable reopened (x ∷ xs) o o' v e =
    rest (parse_opt reopened o x) refl (λ o₁. parse_opts-IsUsable reopened xs o₁ o') e
  where
    rest :
        (p : Parsed)
        → parse_opt reopened o x ≡ p
        → ((o₁ : Options) → IsUsable o₁ → parse_opts reopened o₁ xs ≡ runs o' → IsUsable o')
        → (elim p [ quits status ↦ quits status | runs o₁ ↦ parse_opts reopened o₁ xs ]) ≡ runs o'
        → IsUsable o'
    rest (quits status) s later f = absurd (ground arith)
    rest (runs o₁) s later f = later o₁ (parse_opt-IsUsable reopened o o₁ x v s) f

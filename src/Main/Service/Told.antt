-- ===== src/Main/Service/Told.antt =====
-- What the parent of the daemon is told (src/main.c).
use usbmuxd_win_mce.Base.{
  ℕ, suc, ◌≡◌, ◌≢◌, ◌⊎◌, inl, inr, refl, subst, Bool, true, false, Option, none, some, List, [],
  ◌∷◌, ℤ, pos, negsuc, is_neg, arith, if◌then◌else◌,
}
use usbmuxd_win_mce.State.{World}
use usbmuxd_win_mce.State.Monad.{M, done, pure, ◌>>=◌, ◌>>◌, maybe}
use usbmuxd_win_mce.State.Monad.Runs.{>>=-eq-done}
use usbmuxd_win_mce.Env.{Env}
use usbmuxd_win_mce.Main.Host.{Host, DaemonHost, in_parent}
use usbmuxd_win_mce.Main.Instance
use usbmuxd_win_mce.Main.Instance.{Verdict, terminates, exit_status, check_instance}
use usbmuxd_win_mce.Main.Daemon.{
  Process, continues, fails, exits, daemonize, notify_parent, write_lockfile, make_config_dir,
}
use usbmuxd_win_mce.Main.Privileges.{
  drop_privileges, Dropped, keeps, drops, refuses, IdCall, become, check_dropped,
}
use usbmuxd_win_mce.Main.Options.{Options}
use usbmuxd_win_mce.Main.Service.{
  Ended, as_parent, stopped, served, terminate, ready_to_serve, serve, with_privileges, with_socket,
  with_lockfile, as_process, with_verdict, main,
}

-- What a parent is told of a status: that status where it waits and all four bytes of it are written, and
-- else nothing.
pub record IsTelling (host : DaemonHost) (report : Bool) (status : ℕ) (told : List ℕ) : Type 0 where
  pub whole : report ≡ true → host.notify status ≡ pos 4 → told ≡ status ∷ []
  pub cut : host.notify status ≢ pos 4 → told ≡ []
  pub alone : report ≡ false → told ≡ []

-- A parent that waits is told of 0 if the daemon was ready to serve, and else of the status of its
-- failure, which is not 0.
abbrev pub IsTold : DaemonHost → Ended → Type 0
IsTold host (as_parent status) =
    (host.is_daemon ≡ false) × ((host.fork ≡ in_parent) ⊎ (host.second_fork ≡ in_parent))
IsTold host (stopped status report told) =
    IsTelling host report status told × ((report ≡ false) ⊎ (status ≢ 0))
IsTold host (served status report told) = IsTelling host report 0 told

told_lem :
    (host : DaemonHost) (report : Bool) (status : ℕ)
    → IsTelling host report status (if report then (notify_parent host status).1 else [])
unfolding notify_parent
told_lem host true status = record {
  whole = λ r e. ground (arith, e);
  cut = λ n. ground (arith, n);
  alone = λ e. cc;
}
told_lem host false status = record { whole = λ e n. cc; cut = λ n. refl; alone = λ e. refl }

-- However the program ends, its result is told.
record Tells (host : DaemonHost) (m : M Ended) : Type 0 where
  at : (r : Ended) (w w' : World) → m w ≡ done r w' → IsTold host r

module _ {host : DaemonHost} where
  Tells-pure : (r : Ended) → IsTold host r → Tells host (pure r)
  Tells-pure r h = record { at = λ r' w w' e. subst (IsTold host) (ground arith) h }

  Tells-bind :
      {A : Type 0} (m : M A) (f : A → M Ended) → ((a : A) → Tells host (f a)) → Tells host (m >>= f)
  Tells-bind m f h = record {
    at = λ r w w' e. let (a, v, e₁, e₂) = >>=-eq-done m f e in (h a).at r v w' e₂;
  }

  Tells-then : (m : M (Unit {0})) (k : M Ended) → Tells host k → Tells host (m >> k)
  Tells-then m k h = Tells-bind m (λ _. k) (λ _. h)

  Tells-if :
      (b : Bool) (m n : M Ended)
      → (b ≡ true → Tells host m)
      → Tells host n
      → Tells host (if b then m else n)
  Tells-if true m n h k = h refl
  Tells-if false m n h k = k

  Tells-maybe :
      {C : Type 0} (o : Option C) (m : M Ended) (f : C → M Ended)
      → Tells host m
      → ((c : C) → o ≡ some c → Tells host (f c))
      → Tells host (maybe o m f)
  Tells-maybe none m f h k = h
  Tells-maybe (some c) m f h k = k c refl

  -- A failure with a negative result.
  failed :
      (res : ℤ) (report : Bool) → is_neg res ≡ true → Tells host (pure (terminate host res report))
  failed (pos n) report h = absurd (ground arith)
  failed (negsuc n) report h =
      Tells-pure _ (told_lem host report (suc n), inr (λ e. absurd (omega arith)))

  -- A failure before there is a daemon.
  untold : (res : ℤ) → Tells host (pure (terminate host res false))
  untold res = Tells-pure (terminate host res false) (told_lem host false _, inl refl)

  told_ready :
      (status : ℕ) (report : Bool)
      → Tells host (pure (served status report (if report then (notify_parent host 0).1 else [])))
  told_ready status report = Tells-pure _ (told_lem host report 0)

ruleset tells_rules = (Tells-bind, Tells-then, Tells-if, Tells-maybe, failed, untold, told_ready)

module _ (host : Host) where
  refuses-neg :
      (o : Options) (res : ℤ) (calls : List IdCall)
      → drop_privileges host o ≡ refuses res calls
      → is_neg res ≡ true
  unfolding drop_privileges become check_dropped
  refuses-neg o res calls e = ground arith

  write_lockfile-neg : (res : ℤ) → write_lockfile host.daemon ≡ some res → is_neg res ≡ true
  unfolding write_lockfile
  write_lockfile-neg res e = ground arith

  make_config_dir-neg : (res : ℤ) → make_config_dir host.daemon ≡ some res → is_neg res ≡ true
  unfolding make_config_dir
  make_config_dir-neg res e = ground arith

  daemonize-neg :
      (res : ℤ) (report : Bool) → daemonize host.daemon ≡ fails res report → is_neg res ≡ true
  unfolding daemonize
  daemonize-neg res report e = ground arith

  daemonize-exits :
      (status : ℕ)
      → daemonize host.daemon ≡ exits status
      → (host.daemon.is_daemon ≡ false)
        × ((host.daemon.fork ≡ in_parent) ⊎ (host.daemon.second_fork ≡ in_parent))
  unfolding daemonize
  daemonize-exits status e = ground arith

module _ (env : Env) (host : Host) (fuel rounds turns : ℕ) (o : Options) where
  ready-Tells :
      (report : Bool) (listenfd : ℕ)
      → Tells host.daemon (ready_to_serve env host fuel rounds turns o report listenfd)
  unfolding ready_to_serve
  ready-Tells report listenfd = search tells_rules

  serve-Tells :
      (report : Bool) (listenfd : ℕ)
      → Tells host.daemon (serve env host fuel rounds turns o report listenfd)
  unfolding serve
  serve-Tells report listenfd = search (tells_rules, ready-Tells) depth 8

  privileges-Tells :
      (report : Bool) (listenfd : ℕ) (d : Dropped)
      → drop_privileges host o ≡ d
      → Tells host.daemon (with_privileges env host fuel rounds turns o report listenfd d)
  unfolding with_privileges
  privileges-Tells report listenfd (refuses res calls) e =
      failed res report (refuses-neg host o res calls e)
  privileges-Tells report listenfd keeps e = serve-Tells report listenfd
  privileges-Tells report listenfd (drops calls) e = serve-Tells report listenfd

  socket-Tells :
      (report : Bool) (listenfd : ℕ)
      → Tells host.daemon (with_socket env host fuel rounds turns o report listenfd)
  unfolding with_socket
  socket-Tells report listenfd =
      let rest = privileges-Tells report listenfd (drop_privileges host o) refl in
      let negative = make_config_dir-neg host in search tells_rules depth 8

  lockfile-Tells :
      (report : Bool) → Tells host.daemon (with_lockfile env host fuel rounds turns o report)
  unfolding with_lockfile
  lockfile-Tells report = search (tells_rules, socket-Tells) depth 8

  process-Tells :
      (p : Process)
      → ((status : ℕ)
          → p ≡ exits status
          → (host.daemon.is_daemon ≡ false)
            × ((host.daemon.fork ≡ in_parent) ⊎ (host.daemon.second_fork ≡ in_parent)))
      → ((res : ℤ) (report : Bool) → p ≡ fails res report → is_neg res ≡ true)
      → Tells host.daemon (as_process env host fuel rounds turns o p)
  unfolding as_process
  process-Tells (exits status) k h = Tells-pure (as_parent status) (k status refl)
  process-Tells (fails res report) k h = failed res report (h res report refl)
  process-Tells (continues report) k h =
      let negative = write_lockfile-neg host in search (tells_rules, lockfile-Tells) depth 8

  verdict-Tells : (v : Verdict) → Tells host.daemon (with_verdict env host fuel rounds turns o v)
  unfolding with_verdict
  verdict-Tells (terminates res sent) = untold res
  verdict-Tells Instance.goes_on =
      process-Tells (if o.foreground then continues false else daemonize host.daemon)
        (λ status e. ground (arith, daemonize-exits host status))
        (λ res report e. ground (arith, daemonize-neg host res report))

  main-Tells : Tells host.daemon (main env host fuel rounds turns o)
  unfolding main
  main-Tells = search (tells_rules, verdict-Tells) depth 8

  -- However main ends, whatever the system answers. Where it ends as a parent, it was not a daemon and
  -- one of the two forks returned in the parent. Else, where a parent waits and the pipe takes all of the status, the
  -- parent is told exactly one: 0 if the daemon was ready to serve, and else the status that main
  -- ends with, which is then not 0. Where the pipe does not take all of it, or no parent waits, nothing
  -- is told.
  pub main_tells :
      (ended : Ended) (w w' : World)
      → main env host fuel rounds turns o w ≡ done ended w'
      → IsTold host.daemon ended
  main_tells ended w w' e = main-Tells.at ended w w' e

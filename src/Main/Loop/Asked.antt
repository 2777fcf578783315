-- ===== src/Main/Loop/Asked.antt =====
-- When the event loop ends (src/main.c).
use usbmuxd_win_mce.Base.{
  ℕ, zero, suc, subst, ◌≡◌, ◌≢◌, ◌⊎◌, inl, inr, refl, Bool, true, false, Option, none, some, List,
  [], ◌∷◌, ℤ, pos, neg, arith, if◌then◌else◌, Bool-cases,
}
use usbmuxd_win_mce.State.{World, Events}
use usbmuxd_win_mce.State.Monad.{M, done, pure, ◌>>=◌, ◌>>◌, maybe, modify_bus}
use usbmuxd_win_mce.State.Monad.Runs.{>>=-eq-done}
use usbmuxd_win_mce.Env.{Env}
use usbmuxd_win_mce.Utils.{FdOwner, fd_listen, fd_client, fd_usb, PollFd, FdList, fdlist_create}
use usbmuxd_win_mce.Usb.Discovery.{usb_discover}
use usbmuxd_win_mce.Main.Host.{Host, Polled, interrupted, failed, idle, ready}
use usbmuxd_win_mce.Main.Loop.{
  Turn, goes_on, breaks, fails, turn_of, is_going, result_of, serve_fd, serve_fds, on_interrupt,
  on_timeout, on_polled, loop_turn, main_loop_from, main_loop,
}

-- Wherever the program ends, its result and the state are as `P` says.
record Ends {A : Type 0} (P : A → World → Type 0) (m : M A) : Type 0 where
  at : (r : A) (w w' : World) → m w ≡ done r w' → P r w'

module _ {A : Type 0} {P : A → World → Type 0} where
  Ends-pure : (a : A) → ((w : World) → P a w) → Ends P (pure a)
  Ends-pure a h = record { at = λ r w w' e. subst (λ (o : A). P o w') (ground arith) (h w') }

  -- The first program's result is as `Q` says.
  Ends-bind :
      {B : Type 0} {Q : B → World → Type 0} (m : M B) (f : B → M A)
      → Ends Q m
      → ((b : B) → ((w : World) → Q b w → (r : A) (w' : World) → f b w ≡ done r w' → P r w'))
      → Ends P (m >>= f)
  Ends-bind m f h k = record {
    at = λ r w w' e. let (b, v, e₁, e₂) = >>=-eq-done m f e in k b v (h.at b w v e₁) r w' e₂;
  }

  Ends-after : {B : Type 0} (m : M B) (f : B → M A) → ((b : B) → Ends P (f b)) → Ends P (m >>= f)
  Ends-after m f h = record {
    at = λ r w w' e. let (b, v, e₁, e₂) = >>=-eq-done m f e in (h b).at r v w' e₂;
  }

  Ends-then : (m : M (Unit {0})) (k : M A) → Ends P k → Ends P (m >> k)
  Ends-then m k h = Ends-after m (λ _. k) (λ _. h)

  Ends-if : (b : Bool) (m n : M A) → Ends P m → Ends P n → Ends P (if b then m else n)
  Ends-if true m n h k = h
  Ends-if false m n h k = k

  Ends-maybe :
      {C : Type 0} (o : Option C) (m : M A) (f : C → M A)
      → Ends P m
      → ((c : C) → Ends P (f c))
      → Ends P (maybe o m f)
  Ends-maybe none m f h k = h
  Ends-maybe (some c) m f h k = k c

-- A turn that is the last one with result 0 leaves the daemon asked to exit.
abbrev Asked : Turn → World → Type 0
Asked breaks w = w.bus.should_exit ≡ true
Asked _ w = Unit {0}

-- A descriptor never makes a turn the last one with result 0.
abbrev Serves : Turn × Bool → World → Type 0
Serves r w = r.0 ≢ breaks

turn_of-Serves : (res : ℤ) → turn_of res ≢ breaks
turn_of-Serves res e = ground arith

Asked-ne : (t : Turn) (w : World) → t ≢ breaks → Asked t w
Asked-ne goes_on w h = tt
Asked-ne breaks w h = absurd (h refl)
Asked-ne fails w h = tt

Serves-goes : (b : Bool) → Ends Serves (pure (goes_on, b))
Serves-goes b = Ends-pure (goes_on, b) (λ w e. ground arith)

Serves-turn : (res : ℤ) (b : Bool) → Ends Serves (pure (turn_of res, b))
Serves-turn res b = Ends-pure (turn_of res, b) (λ w. turn_of-Serves res)

Asked-goes : Ends Asked (pure goes_on)
Asked-goes = Ends-pure goes_on (λ w. tt)

Asked-fails : Ends Asked (pure fails)
Asked-fails = Ends-pure fails (λ w. tt)

Asked-same : (t : Turn) (w w' : World) → t ≡ breaks → w' ≡ w → w.bus.should_exit ≡ true → Asked t w'
Asked-same goes_on w w' e f h = tt
Asked-same breaks w w' e f h = ground (arith, f, h)
Asked-same fails w w' e f h = tt

ruleset ends_rules =
    (Ends-after, Ends-then, Ends-if, Ends-maybe, Serves-goes, Serves-turn, Asked-goes, Asked-fails)

module _ (env : Env) (host : Host) (enable_exit : Bool) (fuel rounds listenfd : ℕ) where
  serve_fd-Serves :
      (owner : FdOwner) (fd : ℕ) (revents : Events) (done_usb : Bool)
      → Ends Serves (serve_fd env host enable_exit fuel rounds listenfd owner fd revents done_usb)
  unfolding serve_fd
  serve_fd-Serves fd_usb fd revents done_usb = search ends_rules
  serve_fd-Serves fd_listen fd revents done_usb = search ends_rules
  serve_fd-Serves fd_client fd revents done_usb = search ends_rules

  serve_fds-Asked :
      (call i : ℕ) (done_usb : Bool) (l : List PollFd)
      → Ends Asked (serve_fds env host enable_exit fuel rounds listenfd call i done_usb l)
  unfolding serve_fds
  serve_fds-Asked call i done_usb [] = Ends-pure goes_on (λ w. tt)
  serve_fds-Asked call i done_usb (p ∷ ps) =
      Ends-maybe (host.revents call i) _ _ (serve_fds-Asked call (suc i) done_usb ps) (λ revents.
        Ends-bind _ _ (serve_fd-Serves p.owner p.fd revents done_usb) (λ r w served t w' e.
          (Ends-if (is_going r.0) _ _ (serve_fds-Asked call (suc i) r.1 ps)
              (Ends-pure r.0 (λ v. Asked-ne r.0 v served))).at
            t w w' e))

  -- The rest of `on_interrupt`.
  discover_if : Bool → M Turn
  discover_if b =
      if b
      then (do
        modify_bus (λ b'. record b' { should_discover = false })
        _ ← usb_discover env fuel rounds
        pure goes_on)
      else pure goes_on

  discover_if-Asked : (b : Bool) → Ends Asked (discover_if b)
  unfolding discover_if
  discover_if-Asked b = search ends_rules

  on_interrupt-Asked : Ends Asked (on_interrupt env host enable_exit fuel rounds listenfd)
  unfolding on_interrupt discover_if
  on_interrupt-Asked = record {
    at = λ t w w' e. elim (Bool-cases w.bus.should_exit) [
      | inl asked ↦ Asked-same t w w' (ground arith) (ground arith) asked
      | inr other ↦ (discover_if-Asked w.bus.should_discover).at t w w' (ground arith)
    ];
  }

  on_timeout-Asked : Ends Asked (on_timeout env host enable_exit fuel rounds listenfd)
  unfolding on_timeout
  on_timeout-Asked = search ends_rules

  on_polled-Asked :
      (call : ℕ) (l : List PollFd) (polled : Polled)
      → Ends Asked (on_polled env host enable_exit fuel rounds listenfd call l polled)
  unfolding on_polled
  on_polled-Asked call l interrupted = on_interrupt-Asked
  on_polled-Asked call l failed = Ends-pure goes_on (λ w. tt)
  on_polled-Asked call l idle = on_timeout-Asked
  on_polled-Asked call l ready = serve_fds-Asked call 0 false l

  polled-Asked :
      (call : ℕ) (l : FdList)
      → Ends
          (λ (r : Turn × FdList) w. Asked r.0 w)
          (do
            turn ←
                on_polled env host enable_exit fuel rounds listenfd call l.pollfds (host.ppoll call)
            pure (turn, l))
  polled-Asked call l = record {
    at = λ r w w' e.
        let (turn, v, e₁, e₂) =
          >>=-eq-done
            (on_polled env host enable_exit fuel rounds listenfd call l.pollfds (host.ppoll call))
            (λ t. pure (t, l)) e in
        let asked = (on_polled-Asked call l.pollfds (host.ppoll call)).at turn w v e₁ in
        let same : turn ≡ r.0 = ground arith in
        let still : v ≡ w' = ground arith in
        subst (λ (o : Turn). Asked o w') same (subst (λ (x : World). Asked turn x) still asked);
  }

  loop_turn-Asked :
      (l : FdList)
      → Ends
          (λ (r : Turn × FdList) w. Asked r.0 w)
          (loop_turn env host enable_exit fuel rounds listenfd l)
  unfolding loop_turn
  loop_turn-Asked l = search (ends_rules, polled-Asked) depth 12

  -- Result 0 is that of a daemon that was asked to exit, and -1 the only other.
  abbrev pub IsResult : ℤ → World → Type 0
  IsResult res w = ((res ≡ pos 0) × (w.bus.should_exit ≡ true)) ⊎ (res ≡ neg 1)

  -- What follows a turn.
  after_turn-IsResult :
      (rest : M ℤ) (t : Turn) (w : World)
      → Asked t w
      → Ends IsResult rest
      → (r : ℤ) (w' : World) → (if is_going t then rest else pure (result_of t)) w ≡ done r w'
      → IsResult r w'
  after_turn-IsResult rest goes_on w asked h r w' e = h.at r w w' e
  after_turn-IsResult rest breaks w asked h r w' e = ground (arith, asked)
  after_turn-IsResult rest fails w asked h r w' e = ground arith

  loop_from-IsResult :
      (n : ℕ) (l : FdList)
      → Ends IsResult (main_loop_from env host enable_exit fuel rounds listenfd n l)
  unfolding main_loop_from
  loop_from-IsResult zero l = record { at = λ r w w' e. absurd (ground arith) }
  loop_from-IsResult (suc n) l = record {
    at = λ r w w' e. elim (Bool-cases w.bus.should_exit) [
      | inl asked ↦ ground (arith, asked)
      | inr other ↦
          let ((t, l'), v, e₁, e₂) =
            >>=-eq-done (loop_turn env host enable_exit fuel rounds listenfd l)
              (λ x.
                if is_going x.0
                then main_loop_from env host enable_exit fuel rounds listenfd n x.1
                else pure (result_of x.0))
              {w = w} {w'' = w'} {b = r} (ground arith) in
          after_turn-IsResult (main_loop_from env host enable_exit fuel rounds listenfd n l') t v
            ((loop_turn-Asked l).at (t, l') w v e₁) (loop_from-IsResult n l') r w' e₂
    ];
  }

  -- However many turns the event loop takes and whatever libusb, the sockets, the signals and the polls
  -- bring: it ends with 0 only where the daemon was asked to exit, and its only other result is -1.
  pub main_loop_asked :
      (turns : ℕ) (res : ℤ) (w w' : World)
      → main_loop env host enable_exit fuel rounds listenfd turns w ≡ done res w'
      → IsResult res w'
  unfolding main_loop
  main_loop_asked turns res w w' e = (loop_from-IsResult turns fdlist_create).at res w w' e

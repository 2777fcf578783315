-- ===== src/Main/Loop/Stops.antt =====
-- The event loop ends (src/main.c).
use usbmuxd_win_mce.Base.{
  ℕ, suc, ◌+◌, ◌≡◌, Bool, true, false, ◌||◌, List, [], ◌∷◌, pos, ltb, if◌then◌else◌, arith,
  Bool-cases, Option-cases, inl, inr,
}
use usbmuxd_win_mce.State.{World}
use usbmuxd_win_mce.State.Monad.{done, pure, skip}
use usbmuxd_win_mce.State.Monad.Runs.{>>-eq-done, >>=-eq-done}
use usbmuxd_win_mce.Env.{Env}
use usbmuxd_win_mce.Utils.{FdList}
use usbmuxd_win_mce.Device.Info.{count_from, device_get_count, is_listed}
use usbmuxd_win_mce.Device.Timeout.{device_get_timeout}
use usbmuxd_win_mce.Usb.Discovery.{usb_get_timeout}
use usbmuxd_win_mce.Main.Host.{
  Host, Signal, sigint, sigquit, sigterm, sigusr1, sigusr2, interrupted,
}
use usbmuxd_win_mce.Main.Loop.{
  handle_signal, handle_signals, exits, on_interrupt, on_polled, fill_fds, loop_turn,
  main_loop_from,
}

-- Does the signal end the daemon, whatever its options?
abbrev pub is_ending : Signal → Bool
is_ending sigusr1 = false
is_ending sigusr2 = false
is_ending _ = true

abbrev pub has_ending : List Signal → Bool
has_ending [] = false
has_ending (s ∷ ss) = is_ending s || has_ending ss

-- A count leaves the state as it was.
count_from-same :
    (hidden : Bool) (l : List ℕ) (n : ℕ) (w w' : World) → count_from hidden l w ≡ done n w' → w' ≡ w
unfolding count_from
count_from-same hidden [] n w w' e = ground arith
count_from-same hidden (p ∷ ps) n w w' e = elim (Option-cases (w.devices p)) [
  | inl gone ↦ absurd (ground arith)
  | inr (d, there) ↦
      let (m, w₁, e₁, e₂) =
        >>=-eq-done (count_from hidden ps) (λ k. pure (if is_listed hidden d then suc k else k))
          {w = w} {w'' = w'} {b = n} (ground arith) in
      let same = count_from-same hidden ps m w w₁ e₁ in ground (arith, same)
]

-- A signal ends the daemon if it is an ending one, and none brings it back.
handle_signal-exits :
    (enable_exit : Bool) (s : Signal) (w w' : World)
    → handle_signal enable_exit s w ≡ done tt w'
    → (is_ending s || w.bus.should_exit) ≡ true
    → w'.bus.should_exit ≡ true
unfolding handle_signal device_get_count
handle_signal-exits enable_exit sigint w w' e h = ground arith
handle_signal-exits enable_exit sigquit w w' e h = ground arith
handle_signal-exits enable_exit sigterm w w' e h = ground arith
handle_signal-exits false sigusr1 w w' e h = ground arith
handle_signal-exits true sigusr1 w w' e h =
    let (n, w₁, e₁, e₂) =
      >>=-eq-done (count_from true w.device_list) (λ count. if ltb 0 count then skip else exits)
        {w = w} {w'' = w'} {b = tt} e in
    let same = count_from-same true w.device_list n w w₁ e₁ in ground (arith, same)
handle_signal-exits enable_exit sigusr2 w w' e h = ground arith

handle_signals-exits :
    (enable_exit : Bool) (l : List Signal) (w w' : World)
    → handle_signals enable_exit l w ≡ done tt w'
    → (has_ending l || w.bus.should_exit) ≡ true
    → w'.bus.should_exit ≡ true
unfolding handle_signals
handle_signals-exits enable_exit [] w w' e h = ground arith
handle_signals-exits enable_exit (s ∷ ss) w w' e h =
    let (w₁, e₁, e₂) =
      >>-eq-done (handle_signal enable_exit s) (handle_signals enable_exit ss) {w = w} {w'' = w'}
        {b = tt} e in
    handle_signals-exits enable_exit ss w₁ w' e₂
      (elim (Bool-cases (is_ending s || w.bus.should_exit)) [
        | inl now ↦ ground (arith, handle_signal-exits enable_exit s w w₁ e₁ now)
        | inr later ↦ ground arith
      ])

-- A turn of the event loop whose wait is interrupted, where SIGINT, SIGQUIT or SIGTERM is among the
-- signals that arrived, is its last: the loop ends with result 0 as the handlers left the state,
-- whatever other signals came before or after that one and whether or not devices are attached. The
-- steps of the turn before the wait and the handlers are to have an outcome.
pub handle_signals_stop :
    (env : Env) (host : Host) (enable_exit : Bool) (fuel rounds listenfd n t₁ t₂ : ℕ)
    (l l' : FdList) (w w₁ w₂ w₃ w₄ : World)
    → w.bus.should_exit ≡ false
    → usb_get_timeout env w ≡ done t₁ w₁
    → device_get_timeout env w₁ ≡ done t₂ w₂
    → fill_fds env listenfd l w₂ ≡ done l' w₃
    → host.ppoll w₃.calls ≡ interrupted
    → has_ending (host.signals w₃.calls) ≡ true
    → handle_signals enable_exit (host.signals w₃.calls) (record w₃ { calls = w₃.calls + 1 })
      ≡ done tt w₄
    → main_loop_from env host enable_exit fuel rounds listenfd (suc n) l w ≡ done (pos 0) w₄
unfolding main_loop_from loop_turn on_polled on_interrupt
handle_signals_stop env host enable_exit fuel rounds listenfd n t₁ t₂ l l' w w₁ w₂ w₃ w₄ r e₁ e₂ e₃
      p h e =
    let stops =
      handle_signals-exits enable_exit (host.signals w₃.calls) (record w₃ { calls = w₃.calls + 1 })
        w₄ e (ground arith) in
    ground (arith, r, e₁, e₂, e₃, e, p, stops)

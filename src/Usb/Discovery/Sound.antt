-- ===== src/Usb/Discovery/Sound.antt =====
-- The search for devices keeps the buffers of every client (src/usb.c).
use usbmuxd_win_mce.Base.{ℕ, List, [], ◌∷◌}
use usbmuxd_win_mce.Env.{Env}
use usbmuxd_win_mce.Client.Keeps.{Keeps, keeps_rules}
use usbmuxd_win_mce.Usb.Modes.Keeps.{usb_device_add-Keeps}
use usbmuxd_win_mce.Usb.Events.{usb_disconnect}
use usbmuxd_win_mce.Usb.Events.Sound.{
  reap_dead_devices-Keeps, handle_events-Keeps, usb_disconnect-Keeps,
}
use usbmuxd_win_mce.Usb.Discovery.{
  mark_all_dead, schedule_poll, add_each, discovery_failed, dev_poll_remain_ms, usb_get_timeout,
  reap, sweep, usb_discover, usb_process,
}

mark_all_dead-Keeps : (l : List ℕ) → Keeps (mark_all_dead l)
unfolding mark_all_dead
mark_all_dead-Keeps [] = search keeps_rules
mark_all_dead-Keeps (p ∷ ps) = let rest = mark_all_dead-Keeps ps in search keeps_rules

module _ (env : Env) where
  schedule_poll-Keeps : Keeps (schedule_poll env)
  unfolding schedule_poll
  schedule_poll-Keeps = search keeps_rules

  add_each-Keeps : (l : List ℕ) → Keeps (add_each env l)
  unfolding add_each
  add_each-Keeps [] = search keeps_rules
  add_each-Keeps (dev ∷ devs) =
      let rest = add_each-Keeps devs in search (keeps_rules, usb_device_add-Keeps)

  discovery_failed-Keeps : Keeps (discovery_failed env)
  unfolding discovery_failed
  discovery_failed-Keeps = search (keeps_rules, schedule_poll-Keeps) depth 8

  dev_poll_remain_ms-Keeps : Keeps (dev_poll_remain_ms env)
  unfolding dev_poll_remain_ms
  dev_poll_remain_ms-Keeps = search keeps_rules depth 8

  pub usb_get_timeout-Keeps : Keeps (usb_get_timeout env)
  unfolding usb_get_timeout
  usb_get_timeout-Keeps = search (keeps_rules, dev_poll_remain_ms-Keeps)

  module _ (fuel rounds : ℕ) where
    reap-Keeps : Keeps (reap env fuel rounds)
    reap-Keeps =
        reap_dead_devices-Keeps env fuel (usb_disconnect env fuel rounds)
          (usb_disconnect-Keeps env fuel rounds)

    sweep-Keeps : (devs : List ℕ) → Keeps (sweep env fuel rounds devs)
    unfolding sweep
    sweep-Keeps devs =
        search (keeps_rules, mark_all_dead-Keeps, add_each-Keeps, reap-Keeps, schedule_poll-Keeps)
          depth 12

    pub usb_discover-Keeps : Keeps (usb_discover env fuel rounds)
    unfolding usb_discover
    usb_discover-Keeps = search (keeps_rules, discovery_failed-Keeps, sweep-Keeps)

    pub usb_process-Keeps : Keeps (usb_process env fuel rounds)
    unfolding usb_process
    usb_process-Keeps =
        search
          (
            keeps_rules, handle_events-Keeps, reap-Keeps, dev_poll_remain_ms-Keeps,
            usb_discover-Keeps,
          )
          depth 12

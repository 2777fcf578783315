-- ===== src/Usb/Discovery.antt =====
-- The search for devices and its schedule: `usb_discover`, `usb_get_timeout`, `usb_process`,
-- `usb_process_timeout`, `usb_init` and `usb_shutdown` of src/usb.c.
pub mod Schedule
pub mod Sound
use usbmuxd_win_mce.Base.{
  ℕ, zero, suc, ◌+◌, ◌-◌, ◌*◌, ◌/◌, ◌%◌, Bool, true, false, ◌&&◌, ◌||◌, none, some, List, [], ◌∷◌,
  ℤ, pos, neg, is_neg, is_positive, length, contains, ltb, leb, ◌==◌, if◌then◌else◌,
}
use usbmuxd_win_mce.State.{UsbGlobals}
use usbmuxd_win_mce.State.Monad.{
  M, pure, ◌>>=◌, ◌>>◌, skip, faults, maybe, get, modify_bus, load_usb, tick,
}
use usbmuxd_win_mce.Env.{Env}
use usbmuxd_win_mce.Device.Registry.{device_remove}
use usbmuxd_win_mce.Usb.Transfers.{mark, reap_dead_devices}
use usbmuxd_win_mce.Usb.Modes.{usb_device_add}
use usbmuxd_win_mce.Usb.Events.{handle_events, usb_disconnect, on_events}

-- milliseconds
abbrev pub device_poll_time : ℕ
device_poll_time = 1000

-- A time with its seconds and microseconds, `struct timeval`.
pub record Timeval : Type 0 where
  pub sec : ℕ
  pub usec : ℕ

-- A time that is some seconds and microseconds later.
unfoldable pub later : Timeval → ℕ → ℕ → Timeval
later t sec usec = record {
  sec = t.sec + sec + (t.usec + usec) / 1000000;
  usec = (t.usec + usec) % 1000000;
}

-- The milliseconds until the next search, or 0 where it is overdue. The C division rounds towards 0.
unfoldable pub remain_ms : Timeval → Timeval → ℕ
remain_ms next now =
    let ahead = next.sec * 1000 + (next.usec - now.usec) / 1000 in
    let behind = now.sec * 1000 + (now.usec - next.usec) / 1000 in
    if ltb ahead behind then 0 else ahead - behind

-- Is the first time before the second?
abbrev pub is_before : Timeval → Timeval → Bool
is_before a b = ltb a.sec b.sec || ((a.sec == b.sec) && ltb a.usec b.usec)

-- The smaller of libusb's timeout and the time until the next search.
unfoldable pub nearer : ℕ → ℕ → ℕ
nearer pollrem msec = if ltb pollrem msec then pollrem else msec

unfoldable pub usb_autodiscover : Bool → M (Unit {0})
usb_autodiscover enable =
    modify_bus (λ b. record b { device_polling = enable; device_hotplug = enable })

unfoldable pub mark_all_dead : List ℕ → M (Unit {0})
mark_all_dead [] = skip
mark_all_dead (p ∷ ps) = do mark p false; mark_all_dead ps

abbrev schedule_at : Timeval → UsbGlobals → UsbGlobals
schedule_at t b = record b { poll_sec = t.sec; poll_usec = t.usec }

module _ (env : Env) where
  abbrev pub get_tick_count : M Timeval
  get_tick_count = do
    call ← tick
    pure (record { sec = env.clock_sec call; usec = env.clock_nsec call / 1000 })

  unfoldable pub schedule_poll : M (Unit {0})
  unfolding later
  schedule_poll = do
    now ← get_tick_count
    modify_bus (schedule_at (later now 0 (device_poll_time * 1000)))

  -- How many of the devices were added or are known.
  unfoldable pub add_each : List ℕ → M ℕ
  add_each [] = pure 0
  add_each (dev ∷ devs) = do
    res ← usb_device_add env dev
    n ← add_each devs
    pure (if is_neg res then n else suc n)

  -- A search that failed is repeated later, up to five times in a row.
  unfoldable pub discovery_failed : M ℤ
  unfolding schedule_poll
  discovery_failed = do
    modify_bus (λ b. record b { devlist_failures = b.devlist_failures + 1 })
    failures ← get (λ w. w.bus.devlist_failures)
    if ltb 5 failures then pure (neg 1) else (do schedule_poll; pure (pos 0))

  unfoldable pub dev_poll_remain_ms : M ℕ
  unfolding remain_ms
  dev_poll_remain_ms = do
    b ← get (λ w. w.bus)
    if b.device_polling
        then (do
          now ← get_tick_count
          pure (remain_ms (record { sec = b.poll_sec; usec = b.poll_usec }) now))
        else pure 100000

  unfoldable pub usb_get_timeout : M ℕ
  unfolding dev_poll_remain_ms nearer
  usb_get_timeout = do
    pollrem ← dev_poll_remain_ms
    call ← tick
    pure (
        if is_positive (env.libusb.get_next_timeout call)
        then nearer pollrem
            (env.libusb.timeout_sec call * 1000 + env.libusb.timeout_usec call / 1000)
        else pollrem)

  module _ (fuel rounds : ℕ) where
    abbrev pub reap : M (Unit {0})
    reap = reap_dead_devices env fuel (usb_disconnect env fuel rounds)

    -- The devices that libusb lists, after all that are known were marked as dead.
    unfoldable pub sweep : List ℕ → M ℤ
    unfolding mark_all_dead add_each schedule_poll
    sweep devs = do
      modify_bus (λ b. record b { devlist_failures = 0 })
      l ← get (λ w. w.bus.device_list)
      mark_all_dead l
      valid_count ← add_each devs
      reap
      schedule_poll
      pure (pos valid_count)

    unfoldable pub usb_discover : M ℤ
    unfolding sweep discovery_failed
    usb_discover = do call ← tick; maybe (env.libusb.get_device_list call) discovery_failed sweep

    unfoldable pub usb_process : M ℤ
    unfolding usb_discover dev_poll_remain_ms
    usb_process = do
      res ← handle_events env fuel rounds
      if is_neg res then pure res else (do
        reap
        remain ← dev_poll_remain_ms
        if remain == 0
            then (do res' ← usb_discover; pure (if is_neg res' then res' else pos 0))
            else pure (pos 0))

    -- The loop of usb_process_timeout; one that takes more turns has no outcome.
    unfoldable pub process_until : ℕ → Timeval → Timeval → M ℤ
    process_until zero tfin tcur = faults
    process_until (suc n) tfin tcur =
        if is_before tcur tfin
        then (do
          res ← handle_events env fuel rounds
          if is_neg res
              then pure res
              else (do reap; now ← get_tick_count; process_until n tfin now))
        else pure (pos 0)

    unfoldable pub usb_process_timeout : ℕ → ℕ → M ℤ
    unfolding process_until later
    usb_process_timeout turns msec = do
      tcur ← get_tick_count
      process_until turns (later tcur (msec / 1000) (msec % 1000 * 1000)) tcur

    -- With hotplug there is no search: libusb calls back for the devices that are there.
    unfoldable pub usb_init : M ℤ
    unfolding usb_discover on_events
    usb_init = do
      modify_bus (λ b. record b { devlist_failures = 0; device_polling = true })
      call ← tick
      if env.libusb.init call
          then (do
            modify_bus (λ b. record b { device_list = [] })
            call' ← tick
            if env.libusb.hotplug_register call'
                then (do
                  on_events env fuel (usb_disconnect env fuel rounds)
                      (env.libusb.hotplug_enumerate call')
                  modify_bus (λ b. record b { device_polling = false })
                  l ← get (λ w. w.bus.device_list)
                  pure (pos (length l)))
                else usb_discover)
          else pure (neg 1)

    unfoldable pub usb_shutdown_each : List ℕ → M (Unit {0})
    usb_shutdown_each [] = skip
    usb_shutdown_each (p ∷ ps) = do
      l ← get (λ w. w.bus.device_list)
      if contains p l then (do device_remove env fuel p; usb_disconnect env fuel rounds p) else skip
      usb_shutdown_each ps

    unfoldable pub usb_shutdown : M (Unit {0})
    unfolding usb_shutdown_each
    usb_shutdown = do
      l ← get (λ w. w.bus.device_list)
      usb_shutdown_each l
      modify_bus (λ b. record b { device_list = [] })

-- ===== src/Usb/Discovery/Schedule.antt =====
-- When the next search for devices is due (src/usb.c).
use usbmuxd_win_mce.Base.{◌≢◌, ℕ_discrete, ℕ, ◌+◌, ◌*◌, ◌≤◌, ◌<◌, ◌≡◌, ◌⊎◌, inl, inr, arith}
use usbmuxd_win_mce.Usb.Discovery.{Timeval, later, remain_ms}

-- A search that is scheduled at `now` is at most a second away from then on, and as much less as time
-- has passed, to the millisecond, until it is due. Times have their microseconds below a million.
pub remain_ms-later :
    (now t : Timeval)
    → now.usec < 1000000
    → t.usec < 1000000
    → (now.sec * 1000000 + now.usec ≤ t.sec * 1000000 + t.usec)
    → (remain_ms (later now 0 1000000) t ≤ 1000)
      × ((remain_ms (later now 0 1000000) t ≡ 0)
          ⊎ (remain_ms (later now 0 1000000) t * 1000 + (t.sec * 1000000 + t.usec)
              ≤ now.sec * 1000000 + now.usec + 1000999))
unfolding remain_ms later
remain_ms-later now t h k l = (ground arith, due)
  where
    remain : ℕ
    remain = remain_ms (later now 0 1000000) t

    close :
        remain ≢ 0
        → remain * 1000 + (t.sec * 1000000 + t.usec) ≤ now.sec * 1000000 + now.usec + 1000999
    close z = ground arith

    due :
        (remain ≡ 0)
        ⊎ (remain * 1000 + (t.sec * 1000000 + t.usec) ≤ now.sec * 1000000 + now.usec + 1000999)
    due = elim (ℕ_discrete remain 0) [ yes e ↦ inl e | no z ↦ inr (close z) ]

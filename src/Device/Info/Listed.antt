-- ===== src/Device/Info/Listed.antt =====
-- The device list as clients see it (src/device.c).
use usbmuxd_win_mce.Base.{ℕ, ◌≡◌, inl, inr, Bool, List, [], ◌∷◌, arith, length}
use usbmuxd_win_mce.State.{World, DeviceInfo}
use usbmuxd_win_mce.State.Monad.{done}
use usbmuxd_win_mce.State.Monad.Runs.{Outcome-cases}
use usbmuxd_win_mce.Device.Info.{count_from, list_from, device_get_count, device_get_list}

count_from-length :
    (hidden : Bool) (l : List ℕ) (infos : List DeviceInfo) (w w' : World)
    → list_from hidden l w ≡ done infos w'
    → (count_from hidden l w ≡ done (length infos) w) × (w' ≡ w)
unfolding count_from list_from
count_from-length hidden [] infos w w' e = (ground arith, ground arith)
count_from-length hidden (p ∷ ps) infos w w' e = elim (Outcome-cases (list_from hidden ps w)) [
  | inl f ↦ absurd (ground arith)
  | inr (rest, w'', f) ↦
      let ih = count_from-length hidden ps rest w w'' f in (ground arith, ground arith)
]

-- Wherever the device list can be read for the clients, the count is its length, and neither call
-- changes the state.
pub device_get_count-length :
    (hidden : Bool) (infos : List DeviceInfo) (w w' : World)
    → device_get_list hidden w ≡ done infos w'
    → (device_get_count hidden w ≡ done (length infos) w) × (w' ≡ w)
unfolding device_get_list device_get_count
device_get_count-length hidden infos w w' e = count_from-length hidden w.device_list infos w w' e

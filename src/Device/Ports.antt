-- ===== src/Device/Ports.antt =====
-- Fresh numbers: `find_sport` and `get_next_device_id` of src/device.c.
mod Pigeonhole
pub mod Fresh
use usbmuxd_win_mce.Base.{
  ℕ, zero, suc, ◌+◌, Bool, true, false, Option, none, some, List, [], ◌∷◌, length, contains, leb,
  if◌then◌else◌, add16,
}

-- The loop of `find_sport` over the ports in use: the port found and the next one to try; `none` if
-- the fuel runs out.
unfoldable pub find_sport_from : ℕ → List ℕ → ℕ → Option (ℕ × ℕ)
find_sport_from zero sports next = none
find_sport_from (suc fuel) sports next =
    let rest = find_sport_from fuel sports (add16 next 1) in
    if contains next sports then rest else some (next, add16 next 1)

-- 0 is the refusal, of 65535 connections or more.
unfoldable pub find_sport_in : ℕ → List ℕ → ℕ → Option (ℕ × ℕ)
unfolding find_sport_from
find_sport_in fuel sports next =
    if leb 65535 (length sports) then some (0, next) else find_sport_from fuel sports next

-- The loop of `get_next_device_id` over the ids in use: the id found; the next one is its successor.
unfoldable pub next_device_id_from : ℕ → List ℕ → ℕ → Option ℕ
next_device_id_from zero ids next = none
next_device_id_from (suc fuel) ids next =
    let rest = next_device_id_from fuel ids (next + 1) in
    if contains next ids then rest else some next

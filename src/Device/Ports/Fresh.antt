-- ===== src/Device/Ports/Fresh.antt =====
-- The searches for a free port and a free id end, and what they find is free (src/device.c).
use usbmuxd_win_mce.Base.{
  ℕ, zero, suc, ◌+◌, ◌-◌, ◌%◌, ◌^◌, ◌≤◌, ◌<◌, ◌≡◌, ◌≢◌, ◌⊎◌, inl, inr, refl, List, [], ◌∷◌, false,
  none, some, arith, length, contains, add16, Bool-cases, Option-cases, leb,
}
use usbmuxd_win_mce.Device.Ports.{find_sport_from, find_sport_in, next_device_id_from}
use usbmuxd_win_mce.Device.Ports.Pigeonhole.{Distinct, AllIn, length-le_of_AllIn}

-- The ports that `k` rounds try from `b` on.
tried : ℕ → ℕ → List ℕ
tried zero b = []
tried (suc k) b = b ∷ tried k (add16 b 1)

length-tried : (k b : ℕ) → length (tried k b) ≡ k
unfolding tried
length-tried zero b = refl
length-tried (suc k) b = omega (arith, length-tried k (add16 b 1))

-- Rounds that do not come round to `a` do not try it.
contains-tried :
    (k a b : ℕ)
    → a < 2 ^ 16
    → b < 2 ^ 16
    → k ≤ (a + 2 ^ 16 - b) % 2 ^ 16
    → contains a (tried k b) ≡ false
unfolding tried
contains-tried zero a b ha hb h = refl
contains-tried (suc k) a b ha hb h =
    let other : a ≢ b = omega arith in
    let rest : contains a (tried k (add16 b 1)) ≡ false =
      contains-tried k a (add16 b 1) ha (omega arith) (omega arith) in
    ground arith

tried-Distinct : (k b : ℕ) → b < 2 ^ 16 → k ≤ 2 ^ 16 → Distinct (tried k b)
unfolding tried
tried-Distinct zero b hb h = tt
tried-Distinct (suc k) b hb h = (
  contains-tried k b (add16 b 1) hb (omega arith) (omega arith),
  tried-Distinct k (add16 b 1) (omega arith) (omega arith),
)

-- Every round that goes on has met a port in use.
find_sport_from-none :
    (fuel : ℕ) (sports : List ℕ) (next : ℕ)
    → find_sport_from fuel sports next ≡ none
    → AllIn (tried fuel next) sports
unfolding find_sport_from tried
find_sport_from-none zero sports next e = tt
find_sport_from-none (suc fuel) sports next e =
    ground (arith, find_sport_from-none fuel sports (add16 next 1))

find_sport_from-some :
    (fuel : ℕ) (sports : List ℕ) (next p n : ℕ)
    → next < 2 ^ 16
    → find_sport_from fuel sports next ≡ some (p, n)
    → (contains p sports ≡ false) × (p < 2 ^ 16) × (n ≡ add16 p 1)
unfolding find_sport_from
find_sport_from-some zero sports next p n h e = cc
find_sport_from-some (suc fuel) sports next p n h e =
    ground (arith, find_sport_from-some fuel sports (add16 next 1) p n)

find_sport_from_total :
    (fuel : ℕ) (sports : List ℕ) (next : ℕ)
    → next < 2 ^ 16
    → length sports < fuel
    → fuel ≤ 2 ^ 16
    → find_sport_from fuel sports next ≢ none
find_sport_from_total fuel sports next h l m e = omega (
  arith,
  length-tried fuel next,
  length-le_of_AllIn (tried fuel next) sports (tried-Distinct fuel next h m)
      (find_sport_from-none fuel sports next e),
)

-- With one round for each port, the search for a source port ends. The port that it returns is 0, of
-- a device with 65535 connections or more, or used by no connection of the device, and the next
-- search starts behind it.
pub find_sport_in_lem :
    (sports : List ℕ) (next fuel : ℕ)
    → next < 2 ^ 16
    → fuel ≡ 2 ^ 16
    → (p : ℕ) × (n : ℕ) × (find_sport_in fuel sports next ≡ some (p, n))
      × (n < 2 ^ 16)
      × (((65535 ≤ length sports) × (p ≡ 0) × (n ≡ next))
          ⊎ ((length sports < 65535)
              × (contains p sports ≡ false)
              × (p < 2 ^ 16)
              × (n ≡ add16 p 1)))
unfolding find_sport_in
find_sport_in_lem sports next fuel h f = elim (Bool-cases (leb 65535 (length sports))) [
  | inl full ↦ rw full (0, next, refl, h, ground arith)
  | inr room ↦ rw room (elim (Option-cases (find_sport_from fuel sports next)) [
    | inl e ↦ absurd (find_sport_from_total fuel sports next h (ground arith) (omega arith) e)
    | inr ((p, n), e) ↦
        let found = find_sport_from-some fuel sports next p n h e in
        (p, n, e, omega arith, inr (ground arith, found.0, found.1, found.2))
  ])
]

upward : ℕ → ℕ → List ℕ
upward zero b = []
upward (suc k) b = b ∷ upward k (b + 1)

length-upward : (k b : ℕ) → length (upward k b) ≡ k
unfolding upward
length-upward zero b = refl
length-upward (suc k) b = omega (arith, length-upward k (b + 1))

contains-upward : (k a b : ℕ) → a < b → contains a (upward k b) ≡ false
unfolding upward
contains-upward zero a b h = refl
contains-upward (suc k) a b h = ground (arith, contains-upward k a (b + 1))

upward-Distinct : (k b : ℕ) → Distinct (upward k b)
unfolding upward
upward-Distinct zero b = tt
upward-Distinct (suc k) b = (contains-upward k b (b + 1) (omega arith), upward-Distinct k (b + 1))

next_device_id_from-none :
    (fuel : ℕ) (ids : List ℕ) (next : ℕ)
    → next_device_id_from fuel ids next ≡ none
    → AllIn (upward fuel next) ids
unfolding next_device_id_from upward
next_device_id_from-none zero ids next e = tt
next_device_id_from-none (suc fuel) ids next e =
    ground (arith, next_device_id_from-none fuel ids (next + 1))

next_device_id_from-some :
    (fuel : ℕ) (ids : List ℕ) (next id : ℕ)
    → next_device_id_from fuel ids next ≡ some id
    → (contains id ids ≡ false) × (next ≤ id)
unfolding next_device_id_from
next_device_id_from-some zero ids next id e = cc
next_device_id_from-some (suc fuel) ids next id e =
    ground (arith, next_device_id_from-some fuel ids (next + 1) id)

-- With one round more than there are devices, the search for a device id ends, at an id that no
-- device has and that is not below the one it starts from.
pub next_device_id_from_lem :
    (ids : List ℕ) (next : ℕ)
    → (id : ℕ) × (next_device_id_from (suc (length ids)) ids next ≡ some id)
      × (contains id ids ≡ false)
      × (next ≤ id)
next_device_id_from_lem ids next =
    elim (Option-cases (next_device_id_from (suc (length ids)) ids next)) [
      | inl e ↦ absurd (
          omega (
            arith,
            length-upward (suc (length ids)) next,
            length-le_of_AllIn (upward (suc (length ids)) next) ids
                (upward-Distinct (suc (length ids)) next)
                (next_device_id_from-none (suc (length ids)) ids next e),
          ))
      | inr (id, e) ↦
          let found = next_device_id_from-some (suc (length ids)) ids next id e in
          (id, e, found.0, found.1)
    ]

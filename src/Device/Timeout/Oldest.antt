-- ===== src/Device/Timeout/Oldest.antt =====
-- When the next acknowledgement is due (src/device.c).
use usbmuxd_win_mce.Base.{
  ℕ, ◌+◌, ◌≤◌, ◌<◌, ◌^◌, ◌≡◌, ◌⊎◌, inl, inr, refl, subst, ◌∙◌, true, false, List, [], ◌∷◌, Option,
  some, none, arith,
}
use usbmuxd_win_mce.State.{MuxConnection}
use usbmuxd_win_mce.Device.Timeout.{awaits_ack, earlier, oldest_in, timeout_from, ack_timeout}

-- The time is not after that of a connection that waits for an acknowledgement.
abbrev pub Covers : Option ℕ → MuxConnection → Type 0
Covers none c = awaits_ack c ≡ false
Covers (some t) c = (awaits_ack c ≡ false) ⊎ (t ≤ c.last_ack_time)

abbrev pub CoversAll : Option ℕ → List MuxConnection → Type 0
CoversAll o [] = Unit {0}
CoversAll o (c ∷ cs) = Covers o c × CoversAll o cs

-- The time is one of a waiting connection, or the one that the search began with.
abbrev pub IsFound : Option ℕ → Option ℕ → List MuxConnection → Type 0
IsFound acc o [] = o ≡ acc
IsFound acc o (c ∷ cs) = ((awaits_ack c ≡ true) × (o ≡ some c.last_ack_time)) ⊎ IsFound acc o cs

abbrev NotAfter : Option ℕ → Option ℕ → Type 0
NotAfter o none = Unit {0}
NotAfter none (some s) = ⊥
NotAfter (some t) (some s) = t ≤ s

NotAfter-trans : (a b c : Option ℕ) → NotAfter a b → NotAfter b c → NotAfter a c
NotAfter-trans a b none h k = tt
NotAfter-trans none none (some s) h k = k
NotAfter-trans none (some t) (some s) h k = absurd h
NotAfter-trans (some r) none (some s) h k = absurd k
NotAfter-trans (some r) (some t) (some s) h k = omega arith

Covers-mono : (a b : Option ℕ) (c : MuxConnection) → NotAfter a b → Covers b c → Covers a c
Covers-mono none none c h k = k
Covers-mono none (some s) c h k = absurd h
Covers-mono (some t) none c h k = inl k
Covers-mono (some t) (some s) c h (inl k) = inl k
Covers-mono (some t) (some s) c h (inr k) = inr (omega arith)

earlier-le : (acc : Option ℕ) (c : MuxConnection) → NotAfter (earlier acc c) acc
unfolding earlier
earlier-le none c = tt
earlier-le (some t) c = ground arith

earlier-Covers : (acc : Option ℕ) (c : MuxConnection) → Covers (earlier acc c) c
unfolding earlier
earlier-Covers none c = ground arith
earlier-Covers (some t) c = ground arith

earlier_cases :
    (acc : Option ℕ) (c : MuxConnection)
    → (earlier acc c ≡ acc) ⊎ ((awaits_ack c ≡ true) × (earlier acc c ≡ some c.last_ack_time))
unfolding earlier
earlier_cases none c = ground arith
earlier_cases (some t) c = ground arith

NotAfter-refl : (o : Option ℕ) → NotAfter o o
NotAfter-refl none = tt
NotAfter-refl (some t) = omega arith

oldest_in-le : (acc : Option ℕ) (cs : List MuxConnection) → NotAfter (oldest_in acc cs) acc
unfolding oldest_in
oldest_in-le acc [] = NotAfter-refl acc
oldest_in-le acc (c ∷ cs) =
    NotAfter-trans (oldest_in (earlier acc c) cs) (earlier acc c) acc
      (oldest_in-le (earlier acc c) cs) (earlier-le acc c)

oldest_in-CoversAll : (acc : Option ℕ) (cs : List MuxConnection) → CoversAll (oldest_in acc cs) cs
unfolding oldest_in
oldest_in-CoversAll acc [] = tt
oldest_in-CoversAll acc (c ∷ cs) = (
  Covers-mono (oldest_in (earlier acc c) cs) (earlier acc c) c (oldest_in-le (earlier acc c) cs)
      (earlier-Covers acc c),
  oldest_in-CoversAll (earlier acc c) cs,
)

IsFound-eq : (a b o : Option ℕ) (cs : List MuxConnection) → a ≡ b → IsFound a o cs → IsFound b o cs
IsFound-eq a b o cs e f = subst (λ x. IsFound x o cs) e f

-- What was found is the start that some connection has replaced, or stands further on.
IsFound-start :
    (acc a o : Option ℕ) (cs : List MuxConnection) → IsFound a o cs → (o ≡ a) ⊎ IsFound acc o cs
IsFound-start acc a o [] f = inl f
IsFound-start acc a o (c ∷ cs) (inl f) = inr (inl f)
IsFound-start acc a o (c ∷ cs) (inr f) = elim (IsFound-start acc a o cs f) [
  | inl e ↦ inl e
  | inr g ↦ inr (inr g)
]

oldest_in-IsFound : (acc : Option ℕ) (cs : List MuxConnection) → IsFound acc (oldest_in acc cs) cs
unfolding oldest_in
oldest_in-IsFound acc [] = refl
oldest_in-IsFound acc (c ∷ cs) = elim (earlier_cases acc c) [
  | inl e ↦ inr (IsFound-eq (earlier acc c) acc _ cs e (oldest_in-IsFound (earlier acc c) cs))
  | inr (waits, e) ↦
      elim (IsFound-start acc (earlier acc c) _ cs (oldest_in-IsFound (earlier acc c) cs)) [
        | inl f ↦ inl (waits, f ∙ e)
        | inr g ↦ inr g
      ]
]

-- The search over the connections finds the oldest time of those that wait for an acknowledgement,
-- and nothing if none waits.
pub oldest_in_lem :
    (cs : List MuxConnection)
    → CoversAll (oldest_in none cs) cs × IsFound none (oldest_in none cs) cs
oldest_in_lem cs = (oldest_in-CoversAll none cs, oldest_in-IsFound none cs)

-- The delay is 100 s with nothing to acknowledge. Else, for an oldest time that is not in the future,
-- it is at most 30 ms, and it is 0 or ends 30 ms after that time.
pub timeout_from_lem :
    (oldest ct : ℕ)
    → oldest ≤ ct
    → ct < 2 ^ 64
    → (timeout_from (some oldest) ct ≤ ack_timeout)
      × ((timeout_from (some oldest) ct ≡ 0)
          ⊎ (ct + timeout_from (some oldest) ct ≡ oldest + ack_timeout))
      × (timeout_from none ct ≡ 100000)
unfolding timeout_from
timeout_from_lem oldest ct h k = ground arith

-- ===== src/Device/Ports/Pigeonhole.antt =====
-- Distinct numbers that all stand in a list are no more than the list has places.
use usbmuxd_win_mce.Base.{
  ℕ, suc, ◌≤◌, ◌≡◌, ◌≢◌, List, [], ◌∷◌, true, false, arith, length, contains, ◌==◌, if◌then◌else◌,
}

abbrev pub Distinct : List ℕ → Type 0
Distinct [] = Unit {0}
Distinct (x ∷ xs) = (contains x xs ≡ false) × Distinct xs

abbrev pub AllIn : List ℕ → List ℕ → Type 0
AllIn [] s = Unit {0}
AllIn (x ∷ xs) s = (contains x s ≡ true) × AllIn xs s

-- The list without the first place of a number.
drop_one : ℕ → List ℕ → List ℕ
drop_one a [] = []
drop_one a (x ∷ xs) = if a == x then xs else x ∷ drop_one a xs

length-drop_one :
    (a : ℕ) (xs : List ℕ) → contains a xs ≡ true → suc (length (drop_one a xs)) ≡ length xs
unfolding drop_one
length-drop_one a [] h = cc
length-drop_one a (x ∷ xs) h = ground (arith, length-drop_one a xs)

contains-drop_one :
    (a b : ℕ) (xs : List ℕ) → b ≢ a → contains b xs ≡ true → contains b (drop_one a xs) ≡ true
unfolding drop_one
contains-drop_one a b [] n h = cc
contains-drop_one a b (x ∷ xs) n h = ground (arith, contains-drop_one a b xs n)

AllIn-drop_one :
    (a : ℕ) (xs s : List ℕ) → contains a xs ≡ false → AllIn xs s → AllIn xs (drop_one a s)
AllIn-drop_one a [] s h al = tt
AllIn-drop_one a (x ∷ xs) s h al =
    (contains-drop_one a x s (ground arith) al.0, AllIn-drop_one a xs s (ground arith) al.1)

pub length-le_of_AllIn : (xs s : List ℕ) → Distinct xs → AllIn xs s → length xs ≤ length s
length-le_of_AllIn [] s d al = omega arith
length-le_of_AllIn (x ∷ xs) s d al = omega (
  arith,
  length-drop_one x s al.0,
  length-le_of_AllIn xs (drop_one x s) d.1 (AllIn-drop_one x xs s d.0 al.1),
)

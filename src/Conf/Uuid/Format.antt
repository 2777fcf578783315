-- ===== src/Conf/Uuid/Format.antt =====
-- The form of a generated BUID (src/conf.c).
use usbmuxd_win_mce.Base.{
  ℕ, zero, suc, ◌+◌, ◌%◌, ◌≡◌, ◌⊎◌, inl, inr, refl, ap, sym, subst, true, false, List, [], ◌∷◌,
  arith, length, get_or, if◌then◌else◌, contains, contains-get_or, Bool-cases,
}
use usbmuxd_win_mce.Env.{Env}
use usbmuxd_win_mce.Conf.Uuid.{uuid_from, uuid_chars, is_dash_place, in_range, config_generate_uuid}

-- Each place holds a dash or a capital hexadecimal digit, a dash exactly at the dash places.
abbrev pub HasForm : ℕ → List ℕ → Type 0
HasForm i [] = Unit {0}
HasForm i (c ∷ cs) =
    (((is_dash_place i ≡ true) × (c ≡ b'-'))
      ⊎ ((is_dash_place i ≡ false) × (contains c uuid_chars ≡ true)))
    × HasForm (i + 1) cs

uuid_char :
    (i r : ℕ)
    → let c = if is_dash_place i then b'-' else get_or uuid_chars (in_range r 0 16) 0 in
      ((is_dash_place i ≡ true) × (c ≡ b'-'))
      ⊎ ((is_dash_place i ≡ false) × (contains c uuid_chars ≡ true))
unfolding in_range
uuid_char i r = elim (Bool-cases (is_dash_place i)) [
  | inl dash ↦ inl (dash, ap (λ b. if b then b'-' else get_or uuid_chars (r % 16 + 0) 0) dash)
  | inr other ↦ inr (
    other,
    subst (λ b. contains (if b then b'-' else get_or uuid_chars (r % 16 + 0) 0) uuid_chars ≡ true)
        (sym other) (contains-get_or uuid_chars (r % 16 + 0) 0 (omega arith)),
  )
]

uuid_from-HasForm : (rand : ℕ → ℕ) (n i call : ℕ) → HasForm i (uuid_from rand n i call)
unfolding uuid_from
uuid_from-HasForm rand zero i call = tt
uuid_from-HasForm rand (suc n) i call =
    (uuid_char i (rand call), uuid_from-HasForm rand n (i + 1) (call + 1))

length-uuid_from : (rand : ℕ → ℕ) (n i call : ℕ) → length (uuid_from rand n i call) ≡ n
unfolding uuid_from
length-uuid_from rand zero i call = refl
length-uuid_from rand (suc n) i call = ap suc (length-uuid_from rand n (i + 1) (call + 1))

-- Whatever rand returns, a generated BUID has 36 characters, dashes at the places 8, 13, 18 and 23
-- and capital hexadecimal digits everywhere else.
pub config_generate_uuid-HasForm :
    (env : Env) (call : ℕ)
    → (length (config_generate_uuid env call) ≡ 36) × HasForm 0 (config_generate_uuid env call)
unfolding config_generate_uuid
config_generate_uuid-HasForm env call =
    (length-uuid_from env.rand 36 0 call, uuid_from-HasForm env.rand 36 0 call)

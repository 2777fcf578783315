-- ===== src/Preflight/Product.antt =====
-- The version and the class of a device, from lockdownd (src/preflight.c).
use usbmuxd_win_mce.Base.{
  ℕ, ◌+◌, ◌-◌, ◌*◌, ◌%◌, ◌^◌, Bool, false, ◌&&◌, ◌||◌, Option, none, some, List, [], ◌∷◌, ℤ, pos,
  negsuc, ltb, leb, ◌==◌, if◌then◌else◌, codes, bytes_eq, min,
}
use usbmuxd_win_mce.State.Monad.{M, pure, ◌>>=◌, tick}
use usbmuxd_win_mce.Env.{Env}
use usbmuxd_win_mce.Conf.Records.{string_of}

-- The value of the digits at the start; 0 where there are none.
unfoldable pub digits_value : ℕ → List ℕ → ℕ
digits_value acc [] = acc
digits_value acc (c ∷ cs) =
    let rest = digits_value (acc * 10 + (c - b'0')) cs in
    if leb b'0' c && leb c b'9' then rest else acc

abbrev is_space : ℕ → Bool
is_space c = c == 32 || (leb 9 c && leb c 13)

-- strtol with base 10, as the 64 bits of its result: space, a sign, and the digits, whose value is cut
-- off at LONG_MAX and LONG_MIN.
unfoldable pub strtol : List ℕ → ℕ
unfolding digits_value
strtol [] = 0
strtol (c ∷ cs) =
    let rest = strtol cs in
    if is_space c
    then rest
    else if c == b'-'
    then (2 ^ 64 - min (digits_value 0 cs) (2 ^ 63)) % 2 ^ 64
    else min (digits_value 0 (if c == b'+' then cs else c ∷ cs)) (2 ^ 63 - 1)

-- The cast of a long to int.
abbrev pub int_of : ℕ → ℤ
int_of n = let low = n % 2 ^ 32 in if ltb low (2 ^ 31) then pos low else negsuc (2 ^ 32 - 1 - low)

unfoldable pub version_major : List ℕ → ℤ
unfolding strtol
version_major version = int_of (strtol version)

abbrev pub at_least : ℕ → ℤ → Bool
at_least n (pos m) = leb n m
at_least n (negsuc m) = false

-- Does the device ask its user whether to trust this computer? From iOS 7, watchOS 2 and tvOS 9 on.
unfoldable pub asks_for_trust : List ℕ → ℤ → Bool
asks_for_trust deviceclass major =
    ((bytes_eq deviceclass (codes "iPhone") || bytes_eq deviceclass (codes "iPad"))
      && at_least 7 major)
    || (bytes_eq deviceclass (codes "Watch") && at_least 2 major)
    || (bytes_eq deviceclass (codes "AppleTV") && at_least 9 major)

module _ (env : Env) where
  -- A device that does not tell is taken for an old one.
  unfoldable pub product_version : M (Option (List ℕ))
  product_version = do
    call ← tick
    pure (elim (env.lockdown.get_value call "ProductVersion") [
      | none ↦ some (codes "1.0")
      | some value ↦ string_of env value
    ])

  unfoldable pub device_class : M (Option (List ℕ))
  device_class = do
    call ← tick
    pure (elim (env.lockdown.get_value call "DeviceClass") [
      | none ↦ none
      | some value ↦ string_of env value
    ])

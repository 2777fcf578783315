-- ===== src/Conf/Uuid.antt =====
-- The generated BUID: `get_rand` and `config_generate_uuid` of src/conf.c.
pub mod Format
use usbmuxd_win_mce.Base.{
  ℕ, zero, suc, ◌+◌, ◌-◌, ◌%◌, ◌||◌, Bool, List, [], ◌∷◌, ◌==◌, if◌then◌else◌, get_or, codes,
}
use usbmuxd_win_mce.State.Monad.{M, pure, ◌>>=◌, ◌>>◌, tick}
use usbmuxd_win_mce.Env.{Env}

-- `(rand() % (max - min)) + min`
unfoldable pub in_range : ℕ → ℕ → ℕ → ℕ
in_range r min max = r % (max - min) + min

abbrev pub uuid_chars : List ℕ
uuid_chars = codes "ABCDEF0123456789"

abbrev pub is_dash_place : ℕ → Bool
is_dash_place i = i == 8 || (i == 13 || (i == 18 || i == 23))

-- The characters from place `i` on, `n` of them. A dash takes no random number.
unfoldable pub uuid_from : (ℕ → ℕ) → ℕ → ℕ → ℕ → List ℕ
unfolding in_range
uuid_from rand zero i call = []
uuid_from rand (suc n) i call =
    (if is_dash_place i then b'-' else get_or uuid_chars (in_range (rand call) 0 16) 0)
    ∷ uuid_from rand n (i + 1) (call + 1)

unfoldable pub config_generate_uuid : Env → ℕ → List ℕ
unfolding uuid_from
config_generate_uuid env call = uuid_from env.rand 36 0 call

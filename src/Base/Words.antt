-- ===== src/Base/Words.antt =====
-- Unsigned machine words: arithmetic with its wrap, and the bytes of a word in either order.
use Prim.Native.Nat.{ℕ, zero, suc, ◌+◌, ◌-◌, ◌*◌, ◌/◌, ◌%◌, ◌^◌}
use mathlib.Core.List.{List, [], ◌∷◌}
use usbmuxd_win_mce.Base.Lists.{get_or}
use usbmuxd_win_mce.Base.Tests.{ltb, if◌then◌else◌}

abbrev pub add16 : ℕ → ℕ → ℕ
add16 a b = (a + b) % 2 ^ 16

abbrev pub add32 : ℕ → ℕ → ℕ
add32 a b = (a + b) % 2 ^ 32

abbrev pub sub32 : ℕ → ℕ → ℕ
sub32 a b = (a + 2 ^ 32 - b % 2 ^ 32) % 2 ^ 32

abbrev pub sub64 : ℕ → ℕ → ℕ
sub64 a b = (a + 2 ^ 64 - b % 2 ^ 64) % 2 ^ 64

-- htons and htonl: the bytes of a word, the highest first.
abbrev pub be16 : ℕ → List ℕ
be16 n = n / 256 % 256 ∷ n % 256 ∷ []

abbrev pub be32 : ℕ → List ℕ
be32 n = n / 2 ^ 24 % 256 ∷ n / 2 ^ 16 % 256 ∷ n / 256 % 256 ∷ n % 256 ∷ []

-- A word in the host's order: the lowest byte first.
abbrev pub le16 : ℕ → List ℕ
le16 n = n % 256 ∷ n / 256 % 256 ∷ []

abbrev pub le32 : ℕ → List ℕ
le32 n = n % 256 ∷ n / 256 % 256 ∷ n / 2 ^ 16 % 256 ∷ n / 2 ^ 24 % 256 ∷ []

-- The byte at an offset of the memory `m`; what lies past the memory that is modelled reads as 0.
abbrev pub byte_at : List ℕ → ℕ → ℕ
byte_at m i = get_or m i 0

-- ntohs and ntohl of the word at an offset.
abbrev pub be16_at : List ℕ → ℕ → ℕ
be16_at m i = byte_at m i * 256 + byte_at m (i + 1)

abbrev pub be32_at : List ℕ → ℕ → ℕ
be32_at m i =
    byte_at m i * 2 ^ 24 + byte_at m (i + 1) * 2 ^ 16 + byte_at m (i + 2) * 256 + byte_at m (i + 3)

abbrev pub le32_at : List ℕ → ℕ → ℕ
le32_at m i =
    byte_at m i + byte_at m (i + 1) * 256 + byte_at m (i + 2) * 2 ^ 16 + byte_at m (i + 3) * 2 ^ 24

abbrev pub le16_at : List ℕ → ℕ → ℕ
le16_at m i = byte_at m i + byte_at m (i + 1) * 256

-- `%u` of a number below 10 ^ fuel, in front of a text.
abbrev pub decimal : ℕ → ℕ → List ℕ → List ℕ
decimal zero n rest = rest
decimal (suc fuel) n rest =
    let text = (b'0' + n % 10) ∷ rest in
    let more = decimal fuel (n / 10) text in if ltb n 10 then text else more

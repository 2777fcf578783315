-- ===== src/Conf/Utf16.antt =====
-- The conversion of a Windows path to UTF-8: `config_utf16_to_utf8` of src/conf.c.
pub mod Decoded
use usbmuxd_win_mce.Base.{
  ℕ, ◌+◌, ◌/◌, ◌%◌, Option, none, some, List, [], ◌∷◌, ◌++◌, length, leb, if◌then◌else◌,
}

-- What one pass of the loop writes for a UTF-16 unit.
unfoldable pub utf8_of : ℕ → List ℕ
utf8_of wc =
    if leb 0x800 wc
    then (0xe0 + wc / 4096 % 16) ∷ (0x80 + wc / 64 % 64) ∷ (0x80 + wc % 64) ∷ []
    else if leb 0x80 wc
    then (0xc0 + wc / 64 % 32) ∷ (0x80 + wc % 64) ∷ []
    else wc % 128 ∷ []

-- The loop over the units, with what `outbuf` holds so far.
unfoldable pub convert : List ℕ → List ℕ → List ℕ
convert [] outbuf = outbuf
convert (wc ∷ units) outbuf = convert units (outbuf ++ utf8_of wc)

-- The buffer that is returned, its terminator included, and the two counts.
pub record Converted : Type 0 where
  pub outbuf : List ℕ
  pub items_read : ℕ
  pub items_written : ℕ

-- The units are the first `len` behind `unistr`, which is `none` for NULL.
unfoldable pub config_utf16_to_utf8 : Option (List ℕ) → Option Converted
config_utf16_to_utf8 none = none
config_utf16_to_utf8 (some []) = none
config_utf16_to_utf8 (some (wc ∷ units)) =
    let text = convert (wc ∷ units) [] in
    some (record {
      outbuf = text ++ (0 ∷ []);
      items_read = length (wc ∷ units);
      items_written = length text;
    })

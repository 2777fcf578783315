-- ===== src/Usb/Serial.antt =====
-- The serial number of a device, from its string descriptor: `get_serial_callback` of src/usb.c.
pub mod Text
use usbmuxd_win_mce.Base.{
  ℕ, zero, suc, ◌+◌, not, ◌||◌, List, [], ◌∷◌, ◌++◌, take, drop, length, byte_at, ltb, ◌==◌,
  if◌then◌else◌,
}

-- The loop that takes the text out of UTF-16. `room` is what `serial` still holds, `si` the offset.
unfoldable pub de_unicode : ℕ → ℕ → List ℕ → List ℕ
de_unicode zero si bytes = []
de_unicode (suc room) si bytes =
    let rest = de_unicode room (si + 2) bytes in
    if ltb si (byte_at bytes 0)
    then (if not (ltb (byte_at bytes si) 128) || not (byte_at bytes (si + 1) == 0)
        then 63 ∷ rest
        else if byte_at bytes si == 0
        then []
        else byte_at bytes si ∷ rest)
    else []

-- A new style UDID gets a hyphen behind its first 8 digits.
unfoldable pub hyphenated : List ℕ → List ℕ
hyphenated serial = if length serial == 24 then take 8 serial ++ (45 ∷ drop 8 serial) else serial

unfoldable pub serial_of : List ℕ → List ℕ
unfolding de_unicode hyphenated
serial_of bytes = hyphenated (de_unicode 255 2 bytes)

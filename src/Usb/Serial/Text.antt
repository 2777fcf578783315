-- ===== src/Usb/Serial/Text.antt =====
-- The text that the serial number of a device holds (src/usb.c).
use usbmuxd_win_mce.Base.{
  ℕ, zero, suc, ◌+◌, ◌*◌, ◌≤◌, ◌≡◌, refl, Bool, true, not, ◌&&◌, List, [], ◌∷◌, ◌++◌, arith, take,
  drop, length, length-append, length-take, length-drop, get_or, byte_at, ltb, ◌==◌, if◌then◌else◌,
  inl, inr, Bool-cases,
}
use usbmuxd_win_mce.Usb.Serial.{de_unicode, hyphenated, serial_of}

-- Is every character ASCII and not the terminator?
abbrev pub is_text : List ℕ → Bool
is_text [] = true
is_text (c ∷ cs) = not (c == 0) && ltb c 128 && is_text cs

-- UTF-16 of an ASCII text, the low byte first.
abbrev pub utf16 : List ℕ → List ℕ
utf16 [] = []
utf16 (c ∷ cs) = c ∷ 0 ∷ utf16 cs

-- A string descriptor: its length, the type 3, and the text.
abbrev pub string_descriptor : List ℕ → List ℕ
string_descriptor text = (2 + 2 * length text) ∷ 3 ∷ utf16 text

get_or-drop : (n : ℕ) (xs : List ℕ) (i : ℕ) → get_or (drop n xs) i 0 ≡ get_or xs (n + i) 0
get_or-drop zero xs i = ground arith
get_or-drop (suc n) [] i = ground arith
get_or-drop (suc n) (x ∷ xs) i = ground (arith, get_or-drop n xs i)

drop-drop : (n : ℕ) (xs : List ℕ) → drop 2 (drop n xs) ≡ drop (n + 2) xs
drop-drop zero xs = ground arith
drop-drop (suc n) [] = ground arith
drop-drop (suc n) (x ∷ xs) = ground (arith, drop-drop n xs)

de_unicode-utf16 :
    (text : List ℕ) (room si : ℕ) (bytes : List ℕ)
    → is_text text ≡ true
    → length text ≤ room
    → drop si bytes ≡ utf16 text
    → byte_at bytes 0 ≡ si + 2 * length text
    → de_unicode room si bytes ≡ text
unfolding de_unicode
de_unicode-utf16 [] zero si bytes t h d l = refl
de_unicode-utf16 [] (suc room) si bytes t h d l = ground (arith, l)
de_unicode-utf16 (c ∷ cs) zero si bytes t h d l = absurd (omega arith)
de_unicode-utf16 (c ∷ cs) (suc room) si bytes t h d l = ground (
  arith,
  get_or-drop si bytes 0,
  get_or-drop si bytes 1,
  d,
  de_unicode-utf16 cs room (si + 2) bytes (ground arith) (omega arith)
      (ground (arith, drop-drop si bytes)) (omega arith),
)

-- The serial number of a descriptor of up to 126 ASCII characters is its text, with a hyphen behind the
-- eighth character if there are 24.
pub serial_of-string_descriptor :
    (text : List ℕ)
    → is_text text ≡ true
    → length text ≤ 126
    → serial_of (string_descriptor text)
      ≡ (if length text == 24 then take 8 text ++ (45 ∷ drop 8 text) else text)
unfolding serial_of hyphenated
serial_of-string_descriptor text t h =
    ground (arith, de_unicode-utf16 text 255 2 (string_descriptor text) t (omega arith) refl refl)

de_unicode_lem :
    (room si : ℕ) (bytes : List ℕ)
    → (length (de_unicode room si bytes) ≤ room) × (is_text (de_unicode room si bytes) ≡ true)
unfolding de_unicode
de_unicode_lem zero si bytes = (omega arith, refl)
de_unicode_lem (suc room) si bytes = ground (arith, de_unicode_lem room (si + 2) bytes)

is_text-append : (xs ys : List ℕ) → is_text (xs ++ ys) ≡ (is_text xs && is_text ys)
is_text-append [] ys = refl
is_text-append (x ∷ xs) ys = ground (arith, is_text-append xs ys)

is_text-parts :
    (n : ℕ) (xs : List ℕ)
    → is_text xs ≡ true
    → (is_text (take n xs) ≡ true) × (is_text (drop n xs) ≡ true)
is_text-parts zero xs h = (refl, h)
is_text-parts (suc n) [] h = (refl, refl)
is_text-parts (suc n) (x ∷ xs) h = ground (arith, is_text-parts n xs (ground arith))

hyphenated_lem :
    (text : List ℕ)
    → length text ≤ 255
    → is_text text ≡ true
    → (length (hyphenated text) ≤ 255) × (is_text (hyphenated text) ≡ true)
unfolding hyphenated
hyphenated_lem text h t = elim (Bool-cases (length text == 24)) [
  | inl new_style ↦ (
    ground (
      arith,
      length-append (take 8 text) (45 ∷ drop 8 text),
      length-take 8 text,
      length-drop 8 text,
    ),
    ground (arith, is_text-append (take 8 text) (45 ∷ drop 8 text), is_text-parts 8 text t),
  )
  | inr other ↦ ground arith
]

-- Whatever a device sends as its descriptor, its serial number fits the 256 bytes of its field with
-- their terminator, and is ASCII text without a terminator inside.
pub serial_of_lem :
    (bytes : List ℕ) → (length (serial_of bytes) ≤ 255) × (is_text (serial_of bytes) ≡ true)
unfolding serial_of
serial_of_lem bytes =
    let (h, t) = de_unicode_lem 255 2 bytes in hyphenated_lem (de_unicode 255 2 bytes) h t

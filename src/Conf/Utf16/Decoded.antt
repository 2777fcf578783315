-- ===== src/Conf/Utf16/Decoded.antt =====
-- What the converted path holds (src/conf.c).
use usbmuxd_win_mce.Base.{
  ℕ, zero, suc, ◌+◌, ◌-◌, ◌*◌, ◌/◌, ◌%◌, ◌<◌, ◌≤◌, ◌≡◌, refl, sym, ◌∙◌, Bool, true, ◌&&◌, Option,
  none, some, List, [], ◌∷◌, ◌++◌, arith, length, length-append, append-nil, append_assoc, ltb, leb,
  if◌then◌else◌, inl, inr, Bool-cases, ap,
}
use usbmuxd_win_mce.Conf.Utf16.{utf8_of, convert, config_utf16_to_utf8}

-- Are the units 16 bits wide?
abbrev pub are_units : List ℕ → Bool
are_units [] = true
are_units (wc ∷ units) = ltb wc 65536 && are_units units

abbrev pub also : ℕ → Option (List ℕ) → Option (List ℕ)
also c none = none
also c (some cs) = some (c ∷ cs)

-- A decoder of sequences of up to three bytes: the number of bytes that the current sequence misses, and
-- the value of those before.
abbrev pub decode : ℕ → ℕ → List ℕ → Option (List ℕ)
decode zero acc [] = some []
decode (suc n) acc [] = none
decode zero acc (b ∷ bytes) =
    let single = decode 0 0 bytes in
    let double = decode 1 (b - 192) bytes in
    let triple = decode 2 (b - 224) bytes in
    if ltb b 128
    then also b single
    else if ltb b 192
    then none
    else if ltb b 224
    then double
    else if ltb b 240
    then triple
    else none
decode (suc zero) acc (b ∷ bytes) =
    let rest = decode 0 0 bytes in
    if leb 128 b && ltb b 192 then also (acc * 64 + (b - 128)) rest else none
decode (suc (suc n)) acc (b ∷ bytes) =
    let rest = decode (suc n) (acc * 64 + (b - 128)) bytes in
    if leb 128 b && ltb b 192 then rest else none

-- The bytes of a sequence, from the last one to the first.
decode_last :
    (acc c : ℕ) (bytes : List ℕ)
    → c < 64
    → decode 1 acc ((128 + c) ∷ bytes) ≡ also (acc * 64 + c) (decode 0 0 bytes)
decode_last acc c bytes h = ground arith

decode_middle :
    (acc b : ℕ) (bytes : List ℕ)
    → b < 64
    → decode 2 acc ((128 + b) ∷ bytes) ≡ decode 1 (acc * 64 + b) bytes
decode_middle acc b bytes h = ground arith

decode_double :
    (a : ℕ) (bytes : List ℕ) → a < 32 → decode 0 0 ((192 + a) ∷ bytes) ≡ decode 1 a bytes
decode_double a bytes h = ground arith

decode_triple :
    (a : ℕ) (bytes : List ℕ) → a < 16 → decode 0 0 ((224 + a) ∷ bytes) ≡ decode 2 a bytes
decode_triple a bytes h = ground arith

decode_single :
    (c : ℕ) (bytes : List ℕ) → c < 128 → decode 0 0 (c ∷ bytes) ≡ also c (decode 0 0 bytes)
decode_single c bytes h = ground arith

decode_three :
    (wc : ℕ) (bytes : List ℕ)
    → wc < 65536
    → decode 0 0 ((0xe0 + wc / 4096 % 16) ∷ (0x80 + wc / 64 % 64) ∷ (0x80 + wc % 64) ∷ bytes)
      ≡ also wc (decode 0 0 bytes)
decode_three wc bytes h =
    decode_triple (wc / 4096 % 16) ((0x80 + wc / 64 % 64) ∷ (0x80 + wc % 64) ∷ bytes) (omega arith)
    ∙ decode_middle (wc / 4096 % 16) (wc / 64 % 64) ((0x80 + wc % 64) ∷ bytes) (omega arith)
    ∙ decode_last (wc / 4096 % 16 * 64 + wc / 64 % 64) (wc % 64) bytes (omega arith)
    ∙ ap (λ v. also v (decode 0 0 bytes)) (omega arith)

decode_two :
    (wc : ℕ) (bytes : List ℕ)
    → wc < 2048
    → decode 0 0 ((0xc0 + wc / 64 % 32) ∷ (0x80 + wc % 64) ∷ bytes) ≡ also wc (decode 0 0 bytes)
decode_two wc bytes h =
    decode_double (wc / 64 % 32) ((0x80 + wc % 64) ∷ bytes) (omega arith)
    ∙ decode_last (wc / 64 % 32) (wc % 64) bytes (omega arith)
    ∙ ap (λ v. also v (decode 0 0 bytes)) (omega arith)

decode_one :
    (wc : ℕ) (bytes : List ℕ)
    → wc < 128
    → decode 0 0 (wc % 128 ∷ bytes) ≡ also wc (decode 0 0 bytes)
decode_one wc bytes h =
    decode_single (wc % 128) bytes (omega arith) ∙ ap (λ v. also v (decode 0 0 bytes)) (omega arith)

decode-utf8_of :
    (wc : ℕ) (bytes : List ℕ)
    → wc < 65536
    → decode 0 0 (utf8_of wc ++ bytes) ≡ also wc (decode 0 0 bytes)
unfolding utf8_of
decode-utf8_of wc bytes h = elim (Bool-cases (leb 0x800 wc)) [
  | inl three ↦ rw (three) (decode_three wc bytes h)
  | inr other ↦ elim (Bool-cases (leb 0x80 wc)) [
    | inl two ↦ rw (other, two) (decode_two wc bytes (ground arith))
    | inr one ↦ rw (other, one) (decode_one wc bytes (ground arith))
  ]
]

length-utf8_of : (wc : ℕ) → length (utf8_of wc) ≤ 3
unfolding utf8_of
length-utf8_of wc = ground arith

-- The bytes of the units in order.
abbrev encoded : List ℕ → List ℕ
encoded [] = []
encoded (wc ∷ units) = utf8_of wc ++ encoded units

convert-append : (units outbuf : List ℕ) → convert units outbuf ≡ outbuf ++ encoded units
unfolding convert
convert-append [] outbuf = sym (append-nil outbuf)
convert-append (wc ∷ units) outbuf =
    convert-append units (outbuf ++ utf8_of wc) ∙ append_assoc outbuf (utf8_of wc) (encoded units)

decode-encoded : (units : List ℕ) → are_units units ≡ true → decode 0 0 (encoded units) ≡ some units
decode-encoded [] h = refl
decode-encoded (wc ∷ units) h =
    decode-utf8_of wc (encoded units) (ground arith)
    ∙ ap (also wc) (decode-encoded units (ground arith))

length-encoded : (units : List ℕ) → length (encoded units) ≤ 3 * length units
length-encoded [] = omega arith
length-encoded (wc ∷ units) =
    rw (length-append (utf8_of wc) (encoded units))
      (let h = length-utf8_of wc in let hs = length-encoded units in omega arith)

-- A path of at least one 16-bit unit is converted to bytes that decode to the same units, all of them
-- read, and the bytes and their terminator fit the 3 * (len + 1) bytes that were allocated.
pub config_utf16_to_utf8_lem :
    (wc : ℕ) (units : List ℕ)
    → are_units (wc ∷ units) ≡ true
    → (text : List ℕ) × (config_utf16_to_utf8 (some (wc ∷ units))
        ≡ some (record {
          outbuf = text ++ (0 ∷ []);
          items_read = length (wc ∷ units);
          items_written = length text;
        }))
      × (decode 0 0 text ≡ some (wc ∷ units))
      × (length (text ++ (0 ∷ [])) ≤ 3 * (length (wc ∷ units) + 1))
unfolding config_utf16_to_utf8
config_utf16_to_utf8_lem wc units h =
    let all = wc ∷ units in
    (
      convert all [],
      refl,
      ap (decode 0 0) (convert-append all []) ∙ decode-encoded all h,
      rw (length-append (convert all []) (0 ∷ []), convert-append all [])
          (let fits = length-encoded all in omega arith),
    )

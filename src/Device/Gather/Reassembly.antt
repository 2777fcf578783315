-- ===== src/Device/Gather/Reassembly.antt =====
-- A packet that is cut into transfers is put together again (`device_data_input` of src/device.c).
use usbmuxd_win_mce.Base.{
  ℕ, ◌+◌, ◌≤◌, ◌<◌, ◌≡◌, ◌⊎◌, refl, sym, ◌∙◌, List, [], ◌∷◌, ◌++◌, arith, length, take,
  length-append, take-length, get_or-append_le, append_assoc, length-take,
}
use usbmuxd_win_mce.State.{MuxDevice}
use usbmuxd_win_mce.Wire.{usb_mru, dev_mru}
use usbmuxd_win_mce.Device.Gather.{
  Gathered, dropped, waiting, packet, gather, gather_first, gather_more, length_field, with_pktbuf,
}

-- The transfers of one packet in order, until it is complete or dropped.
pub gather_all : MuxDevice → List (List ℕ) → List ℕ → Gathered
gather_all d [] last = gather d last (length last)
gather_all d (t ∷ ts) last = elim (gather d t (length t)) [
  | waiting d' ↦ gather_all d' ts last
  | dropped d' ↦ dropped d'
  | packet d' b n ↦ packet d' b n
]

-- Every transfer is full.
abbrev pub AllFull : List (List ℕ) → Type 0
AllFull [] = Unit {0}
AllFull (t ∷ ts) = (length t ≡ usb_mru) × AllFull ts

abbrev pub join : List (List ℕ) → List ℕ → List ℕ
join [] last = last
join (t ∷ ts) last = t ++ join ts last

length_zero : (xs : List ℕ) → length xs ≡ 0 → xs ≡ []
length_zero [] h = refl
length_zero (x ∷ xs) h = absurd (omega arith)

-- The length word stands in the first eight bytes.
length_field-append : (xs ys : List ℕ) → 8 ≤ length xs → length_field (xs ++ ys) ≡ length_field xs
length_field-append xs ys h = cc (
  get_or-append_le xs ys 4 0 (omega arith),
  get_or-append_le xs ys 5 0 (omega arith),
  get_or-append_le xs ys 6 0 (omega arith),
  get_or-append_le xs ys 7 0 (omega arith),
)

-- Whatever comes, no more than DEV_MRU bytes are kept, and what is handed on is the bytes kept
-- before with those of the transfer behind them, or the transfer's own where none were kept.
pub record IsBounded (d : MuxDevice) (buffer : List ℕ) (len : ℕ) (g : Gathered) : Type 0 where
  pub keeps : (d' : MuxDevice) → (g ≡ dropped d') ⊎ (g ≡ waiting d') → length d'.pktbuf ≤ dev_mru
  pub hands_on :
      (d' : MuxDevice) (b : List ℕ) (n : ℕ)
      → g ≡ packet d' b n
      → (d'.pktbuf ≡ [])
        × (n ≡ length d.pktbuf + len)
        × (n ≤ dev_mru)
        × (d.pktbuf ≡ [] → b ≡ buffer)
        × (0 < length d.pktbuf → b ≡ d.pktbuf ++ take len buffer)

-- For a transfer of at most USB_MRU bytes that meets at most DEV_MRU kept ones: no more than DEV_MRU
-- bytes are kept, and a packet that is handed on has at most DEV_MRU bytes, as many as were kept and
-- came, and leaves none behind: where bytes were kept it is these with those of the transfer behind
-- them, and where none were it is the transfer.
pub gather-IsBounded :
    (d : MuxDevice) (buffer : List ℕ) (len : ℕ)
    → length d.pktbuf ≤ dev_mru
    → len ≤ usb_mru
    → IsBounded d buffer len (gather d buffer len)
unfolding gather gather_more gather_first
gather-IsBounded d buffer len k b = record {
  keeps = λ d' e. ground (arith, length-append d.pktbuf (take len buffer), length-take len buffer);
  hands_on = λ d' b' n e. ground (arith, length_zero d.pktbuf);
}

-- A full transfer in the middle of a packet is kept.
gather_middle :
    (d : MuxDevice) (t : List ℕ)
    → 0 < length d.pktbuf
    → length t ≡ usb_mru
    → length d.pktbuf + length t < length_field (d.pktbuf ++ t)
    → length_field (d.pktbuf ++ t) ≤ dev_mru
    → gather d t (length t) ≡ waiting (with_pktbuf d (d.pktbuf ++ t))
unfolding gather gather_more
gather_middle d t h f m c = ground (arith, take-length (length t) t)

-- The transfer that brings the packet to its length completes it.
gather_last :
    (d : MuxDevice) (t : List ℕ)
    → 0 < length d.pktbuf
    → length t ≤ usb_mru
    → length d.pktbuf + length t ≡ length_field (d.pktbuf ++ t)
    → length_field (d.pktbuf ++ t) ≤ dev_mru
    → gather d t (length t) ≡ packet (with_pktbuf d []) (d.pktbuf ++ t) (length d.pktbuf + length t)
unfolding gather gather_more
gather_last d t h f m c = ground (arith, take-length (length t) t)

length-join : (ts : List (List ℕ)) (last : List ℕ) → 0 < length last → 0 < length (join ts last)
length-join [] last h = h
length-join (t ∷ ts) last h = omega (arith, length-append t (join ts last), length-join ts last h)

-- A packet of one transfer.
whole_packet :
    (d : MuxDevice) (t : List ℕ)
    → d.pktbuf ≡ []
    → length t ≤ usb_mru
    → length_field t ≡ length t
    → gather d t (length t) ≡ packet (with_pktbuf d []) t (length t)
unfolding gather gather_first
whole_packet d t n b e = ground arith

gather_rest :
    (d : MuxDevice) (ts : List (List ℕ)) (last : List ℕ)
    → 8 ≤ length d.pktbuf
    → AllFull ts
    → 0 < length last
    → length last ≤ usb_mru
    → length_field (d.pktbuf ++ join ts last) ≡ length (d.pktbuf ++ join ts last)
    → length (d.pktbuf ++ join ts last) ≤ dev_mru
    → gather_all d ts last
      ≡ packet (with_pktbuf d []) (d.pktbuf ++ join ts last) (length (d.pktbuf ++ join ts last))
unfolding gather_all
gather_rest d [] last h f p b e m = rw (length-append d.pktbuf last) (
    gather_last d last (omega arith) b (omega (arith, length-append d.pktbuf last, e))
      (omega (arith, e, m)))
gather_rest d (t ∷ ts) last h f p b e m = rw (← append_assoc d.pktbuf t (join ts last)) (
    rw
      (
        gather_middle d t (omega arith) f.0
            (omega (arith, whole, len, length-append d.pktbuf t, length-join ts last p))
            (omega (arith, whole, len, m')),
        gather_all,
      )
      (gather_rest (with_pktbuf d (d.pktbuf ++ t)) ts last (omega (arith, length-append d.pktbuf t))
        f.1 p b e' m'))
  where
    e' : length_field ((d.pktbuf ++ t) ++ join ts last) ≡ length ((d.pktbuf ++ t) ++ join ts last)
    e' = rw (append_assoc d.pktbuf t (join ts last)) e

    m' : length ((d.pktbuf ++ t) ++ join ts last) ≤ dev_mru
    m' = rw (append_assoc d.pktbuf t (join ts last)) m

    len : length ((d.pktbuf ++ t) ++ join ts last) ≡ length (d.pktbuf ++ t) + length (join ts last)
    len = length-append (d.pktbuf ++ t) (join ts last)

    whole : length_field (d.pktbuf ++ t) ≡ length ((d.pktbuf ++ t) ++ join ts last)
    whole =
        sym (
          length_field-append (d.pktbuf ++ t) (join ts last)
            (omega (arith, length-append d.pktbuf t)))
        ∙ e'

-- The first transfer of a packet that is longer is kept.
gather_start :
    (d : MuxDevice) (t : List ℕ)
    → d.pktbuf ≡ []
    → length t ≡ usb_mru
    → length t < length_field t
    → gather d t (length t) ≡ waiting (with_pktbuf d t)
unfolding gather gather_first
gather_start d t n f m = ground (arith, take-length (length t) t)

-- A packet of at most DEV_MRU bytes whose length word says its length, cut into transfers of USB_MRU
-- bytes with a last one that may be shorter, is handed on once, whole and with its length, and
-- leaves no bytes behind; it is not handed on before its last transfer.
pub gather_all-join :
    (d : MuxDevice) (ts : List (List ℕ)) (last : List ℕ)
    → d.pktbuf ≡ []
    → AllFull ts
    → 0 < length last
    → length last ≤ usb_mru
    → length_field (join ts last) ≡ length (join ts last)
    → length (join ts last) ≤ dev_mru
    → gather_all d ts last ≡ packet (with_pktbuf d []) (join ts last) (length (join ts last))
unfolding gather_all
gather_all-join d [] last n f p b e m = whole_packet d last n b e
gather_all-join d (t ∷ ts) last n f p b e m =
    rw
      (
        gather_start d t n f.0
            (omega (arith, first, e, length-append t (join ts last), length-join ts last p)),
        gather_all,
      )
      (gather_rest (with_pktbuf d t) ts last (omega arith) f.1 p b e m)
  where
    first : length_field (t ++ join ts last) ≡ length_field t
    first = length_field-append t (join ts last) (omega arith)

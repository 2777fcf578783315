-- ===== src/Device/Gather.antt =====
-- The packets that arrive in pieces: the first half of `device_data_input` of src/device.c. A USB
-- transfer brings at most `USB_MRU` bytes of a packet.
pub mod Reassembly
use usbmuxd_win_mce.Base.{
  ℕ, ◌+◌, Bool, ◌&&◌, ◌||◌, List, [], ◌++◌, length, take, ltb, ◌==◌, if◌then◌else◌, add32, be32_at,
}
use usbmuxd_win_mce.State.{MuxDevice}
use usbmuxd_win_mce.Wire.{usb_mru, dev_mru}

-- The transfer is dropped, is kept until more comes, or completes a packet of the given length.
pub data Gathered : Type 0 where
  dropped : MuxDevice → Gathered
  waiting : MuxDevice → Gathered
  packet : MuxDevice → List ℕ → ℕ → Gathered

-- `ntohl(mhdr->length)`
abbrev pub length_field : List ℕ → ℕ
length_field m = be32_at m 4

abbrev pub with_pktbuf : MuxDevice → List ℕ → MuxDevice
with_pktbuf d buf = record d { pktbuf = buf }

-- A transfer behind the pieces so far.
unfoldable pub gather_more : MuxDevice → List ℕ → ℕ → Gathered
gather_more d buffer len =
    let pktlen = length d.pktbuf in
    let joined = d.pktbuf ++ take len buffer in
    if ltb dev_mru (add32 len pktlen)
    then dropped (with_pktbuf d [])
    else if ltb len usb_mru || length_field joined == add32 len pktlen
    then packet (with_pktbuf d []) joined (add32 len pktlen)
    else waiting (with_pktbuf d joined)

-- A transfer when no packet is in pieces.
unfoldable pub gather_first : MuxDevice → List ℕ → ℕ → Gathered
gather_first d buffer len =
    if len == usb_mru && ltb len (length_field buffer)
    then waiting (with_pktbuf d (take len buffer))
    else packet d buffer len

unfoldable pub gather : MuxDevice → List ℕ → ℕ → Gathered
unfolding gather_more gather_first
gather d buffer len =
    if length d.pktbuf == 0 then gather_first d buffer len else gather_more d buffer len

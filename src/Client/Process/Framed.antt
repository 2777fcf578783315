-- ===== src/Client/Process/Framed.antt =====
-- Where a message ends: the framing of `input_buffer_process` (src/client.c).
use usbmuxd_win_mce.Base.{ℕ, ◌+◌, ◌≤◌, ◌<◌, ◌≡◌, List, arith, length, le32_at}
use usbmuxd_win_mce.Client.Output.{usbmuxd_header_size}
use usbmuxd_win_mce.Client.Process.{Framing, framing, too_long, too_short, complete, incomplete}

-- What each outcome says of a buffer: a message is handled only when all its bytes are there and it
-- is a header at least; a read that completes it stays within the capacity.
abbrev pub IsFramed : ℕ → List ℕ → Framing → Type 0
IsFramed capacity buf too_long = capacity < le32_at buf 0
IsFramed capacity buf too_short = le32_at buf 0 < usbmuxd_header_size
IsFramed capacity buf complete =
    (usbmuxd_header_size ≤ le32_at buf 0)
    × (le32_at buf 0 ≤ length buf)
    × (le32_at buf 0 ≤ capacity)
IsFramed capacity buf (incomplete n) =
    (0 < n) × (length buf + n ≡ le32_at buf 0) × (length buf + n ≤ capacity)

-- The framing of a client's input is right on each of its outcomes: too long, too short, complete,
-- and how much there is still to read.
pub framing-IsFramed : (capacity : ℕ) (buf : List ℕ) → IsFramed capacity buf (framing capacity buf)
unfolding framing
framing-IsFramed capacity buf = ground arith

-- ===== src/Device/Input/Dispatch.antt =====
-- Which packets reach a handler (src/device.c).
use usbmuxd_win_mce.Base.{
  ℕ, ◌-◌, ◌≤◌, ◌<◌, ◌≡◌, ◌≢◌, false, List, [], some, arith, sub32, take, drop,
}
use usbmuxd_win_mce.State.{World, MuxDevice}
use usbmuxd_win_mce.State.Monad.{done}
use usbmuxd_win_mce.Env.{Env}
use usbmuxd_win_mce.Wire.{mux_header_full_size, dev_mru, TcpHeader}
use usbmuxd_win_mce.Device.Gather.{length_field}
use usbmuxd_win_mce.Device.Info.{is_active}
use usbmuxd_win_mce.Device.Input.{
  device_control_input, c_string, ControlLog, dispatch, device_tcp_input, device_version_input,
  is_init,
}

-- The text that is logged of a control packet; none for a remark.
abbrev pub logged_text : ControlLog → List ℕ
logged_text (ControlLog.text level t) = t
logged_text (ControlLog.remark level) = []

-- Of a control packet of at most DEV_MRU bytes for a device of version 2, the text that is logged ends
-- at the first NUL. Where the packet is longer than its header, the text is looked for in the
-- packet, behind the first byte after the header; where it is just the header, there is none. Where
-- it is shorter, the length of the payload wraps, and the text is looked for in all that the buffer
-- has behind that byte, whether or not it belongs to the packet.
pub control_input_lem :
    (buffer : List ℕ) (len : ℕ)
    → len ≤ dev_mru
    → let line =
        device_control_input (drop mux_header_full_size buffer) (sub32 len mux_header_full_size) in
      (mux_header_full_size < len
        → logged_text line
          ≡ c_string
              (take (len - mux_header_full_size - 1) (drop 1 (drop mux_header_full_size buffer))))
      × (len ≡ mux_header_full_size → logged_text line ≡ [])
      × (len < mux_header_full_size
          → logged_text line ≡ c_string (drop 1 (drop mux_header_full_size buffer)))
unfolding device_control_input
control_input_lem buffer len k = (λ h. ground arith, λ h. ground arith, λ h. ground arith)

module _ (env : Env) (fuel : ℕ) where
  -- A packet whose length word is not its length changes nothing.
  pub dispatch_mismatch :
      (dev : ℕ) (buffer : List ℕ) (len : ℕ) (d : MuxDevice) (w : World)
      → w.devices dev ≡ some d
      → length_field buffer ≢ len
      → dispatch env fuel dev buffer len w ≡ done tt w
  unfolding dispatch
  dispatch_mismatch dev buffer len d w h n = ground arith

  -- Nor does a segment for a device that is not active, or a version packet for one that is past its
  -- set-up.
  pub input_out_of_state :
      (dev : ℕ) (d : MuxDevice) (th : TcpHeader) (payload vh : List ℕ) (w : World)
      → w.devices dev ≡ some d
      → (is_active d.state ≡ false → device_tcp_input env fuel dev th payload w ≡ done tt w)
        × (is_init d.state ≡ false → device_version_input env dev vh w ≡ done tt w)
  unfolding device_tcp_input device_version_input
  input_out_of_state dev d th payload vh w h = (λ s. ground arith, λ s. ground arith)

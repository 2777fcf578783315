-- ===== src/Device/Connect/Opened.antt =====
-- What a connect request leaves behind (`device_start_connect` of src/device.c).
use usbmuxd_win_mce.Base.{
  ℕ, ◌+◌, ◌<◌, ◌^◌, ◌≡◌, ◌≢◌, ◌⊎◌, inl, inr, refl, false, Option, none, some, List, [], ℤ, pos,
  arith, contains, ◌==◌, Option-cases, Bool-cases,
}
use usbmuxd_win_mce.State.{World, MuxDevice, MuxConnection}
use usbmuxd_win_mce.State.Monad.{done, fault}
use usbmuxd_win_mce.State.Monad.Runs.{Outcome-cases}
use usbmuxd_win_mce.Env.{Env}
use usbmuxd_win_mce.Wire.{MuxProtocol, th_syn, tcp_header}
use usbmuxd_win_mce.Device.Ports.Fresh.{find_sport_in_lem}
use usbmuxd_win_mce.Device.Packet.{
  send_packet, send_sized, usb_send, send_segment, mstime64, start_sequence, count_packet,
  segment_header,
}
use usbmuxd_win_mce.Device.Lookup.{get_mux_device_for_id, load_conns}
use usbmuxd_win_mce.Device.Connect.{
  find_sport, open_connection, device_start_connect, sports_of, new_connection,
}

-- A device that is still being set up has no list of connections yet; a connect request for it reads
-- memory that was never written.
pub start_connect_not_active :
    (env : Env) (device_id dport client dev : ℕ) (d : MuxDevice) (w : World)
    → get_mux_device_for_id device_id w ≡ done (some dev) w
    → w.devices dev ≡ some d
    → d.connections ≡ none
    → device_start_connect env device_id dport client w ≡ fault
unfolding device_start_connect find_sport
start_connect_not_active env device_id dport client dev d w found h raw = ground arith

-- The list of connections of a device.
abbrev pub connections_at : World → ℕ → Option (List ℕ)
connections_at w p = elim (w.devices p) [ none ↦ none | some d ↦ d.connections ]

-- What sending leaves alone: the connections, the allocator, and which connections a device has.
pub record Keeps (dev : ℕ) (w w' : World) : Type 0 where
  pub conns : w'.conns ≡ w.conns
  pub next_ptr : w'.next_ptr ≡ w.next_ptr
  pub lists : connections_at w' dev ≡ connections_at w dev

-- The rest of a connection does not change when it is sent for.
pub record SameEnds (c c' : MuxConnection) : Type 0 where
  pub dev : c'.dev ≡ c.dev
  pub client : c'.client ≡ c.client
  pub state : c'.state ≡ c.state
  pub sport : c'.sport ≡ c.sport
  pub dport : c'.dport ≡ c.dport

module _ (env : Env) where
  usb_send-Keeps :
      (dev usbdev : ℕ) (buf : List ℕ) (r : ℤ) (w w' : World)
      → usb_send env usbdev buf w ≡ done r w'
      → Keeps dev w w'
  unfolding usb_send
  usb_send-Keeps dev usbdev buf r w w' e = ground arith

  counted_keeps :
      (d : MuxDevice) (proto : MuxProtocol)
      → (count_packet (start_sequence d proto)).connections ≡ d.connections
  unfolding count_packet start_sequence
  counted_keeps d proto = ground arith

  send_sized-Keeps :
      (dev : ℕ) (proto : MuxProtocol) (hdrlen : ℕ) (header payload : List ℕ) (r : ℤ) (w w' : World)
      → send_sized env dev proto hdrlen header payload w ≡ done r w'
      → Keeps dev w w'
  unfolding send_sized usb_send
  send_sized-Keeps dev proto hdrlen header payload r w w' e = elim (Option-cases (w.devices dev)) [
    | inl gone ↦ absurd (ground arith)
    | inr (d, h) ↦ ground (arith, counted_keeps d proto)
  ]

  send_segment-Keeps :
      (dev flags : ℕ) (payload : List ℕ) (c c' : MuxConnection) (r : ℤ) (w w' : World)
      → c.dev ≡ dev
      → send_segment env c flags payload w ≡ done (r, c') w'
      → Keeps dev w w' × SameEnds c c'
  unfolding send_segment send_packet mstime64
  send_segment-Keeps dev flags payload c c' r w w' h e =
      elim (Outcome-cases
        (send_sized env c.dev MuxProtocol.tcp 20 (tcp_header (segment_header c flags)) payload w)) [
          | inl f ↦ absurd (ground arith)
          | inr (a, v, f) ↦
              let kept =
                send_sized-Keeps c.dev MuxProtocol.tcp 20 (tcp_header (segment_header c flags))
                  payload a w v f in
              ground (arith, kept)
        ]

  -- The connection that is opened: it stands under a fresh address with the ends that were asked
  -- for, its device lists it beside those it had, and no other connection has changed.
  pub record IsOpen (dev sport dport client : ℕ) (ps : List ℕ) (w w' : World) : Type 0 where
    pub conn : MuxConnection
    pub stored : w'.conns w.next_ptr ≡ some conn
    pub ends : SameEnds (new_connection dev client sport dport) conn
    pub listed : connections_at w' dev ≡ some (env.collection_add ps w.next_ptr)
    pub others : (q : ℕ) → q ≢ w.next_ptr → w'.conns q ≡ w.conns q

  open_connection-IsOpen :
      (dev sport dport client : ℕ) (ps : List ℕ) (w w' : World)
      → connections_at w dev ≡ some ps
      → open_connection env dev sport dport client w ≡ done (pos 0) w'
      → IsOpen dev sport dport client ps w w'
  unfolding open_connection
  open_connection-IsOpen dev sport dport client ps w w' h e =
      elim (Outcome-cases (send_segment env fresh th_syn [] moved)) [
        | inl f ↦ absurd (ground arith)
        | inr ((a, c), v, f) ↦
            let kept = send_segment-Keeps dev th_syn [] fresh c a moved v refl f in
            elim (Option-cases (v.devices dev)) [
              | inl gone ↦ absurd (ground (arith, kept))
              | inr (d, here) ↦ record {
                conn = c;
                stored = ground (arith, kept);
                ends = kept.1;
                listed = ground (arith, kept);
                others = λ q ne. ground (arith, kept);
              }
            ]
      ]
    where
      moved : World
      moved = record w { next_ptr = w.next_ptr + 1 }

      fresh : MuxConnection
      fresh = new_connection dev client sport dport

  find_sport_lem :
      (dev sport : ℕ) (d : MuxDevice) (ps : List ℕ) (cs : List MuxConnection) (w w' : World)
      → w.devices dev ≡ some d
      → d.connections ≡ some ps
      → load_conns ps w ≡ done cs w
      → d.next_sport < 2 ^ 16
      → find_sport dev w ≡ done sport w'
      → ((sport ≡ 0) ⊎ (contains sport (sports_of cs) ≡ false)) × Keeps dev w w'
  unfolding find_sport
  find_sport_lem dev sport d ps cs w w' h l g b e =
      let (p, n, f, _, found) = find_sport_in_lem (sports_of cs) d.next_sport 65536 b refl in
      ground (arith, f, found)

  -- A connect request that succeeds, for a device that is found and whose connections can be read, has
  -- opened a connection for the client on a port that is not 0 and that no connection of the device
  -- had.
  pub start_connect_fresh :
      (device_id dport client dev : ℕ) (d : MuxDevice) (ps : List ℕ) (cs : List MuxConnection)
      (w w' : World)
      → get_mux_device_for_id device_id w ≡ done (some dev) w
      → w.devices dev ≡ some d
      → d.connections ≡ some ps
      → load_conns ps w ≡ done cs w
      → d.next_sport < 2 ^ 16
      → device_start_connect env device_id dport client w ≡ done (pos 0) w'
      → (sport : ℕ) × (sport ≢ 0)
        × (contains sport (sports_of cs) ≡ false)
        × IsOpen dev sport dport client ps w w'
  unfolding device_start_connect
  start_connect_fresh device_id dport client dev d ps cs w w' found h l g b e =
      elim (Outcome-cases (find_sport dev w)) [
        | inl f ↦ absurd (ground arith)
        | inr (sport, v, f) ↦
            let (free, kept) = find_sport_lem dev sport d ps cs w v h l g b f in
            elim (Bool-cases (sport == 0)) [
              | inl none_left ↦ absurd (ground arith)
              | inr some_left ↦
                  let opened =
                    open_connection-IsOpen dev sport dport client ps v w' (ground (arith, kept))
                      (ground arith) in
                  (sport, ground arith, ground arith, ground (arith, opened, kept))
            ]
      ]

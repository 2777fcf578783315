-- ===== src/Device/Teardown/Untouched.antt =====
-- The steps of a teardown that change no client: what is sent to the device, the flush of a
-- connection's buffer to its client, and the lists of connections (src/device.c).
use usbmuxd_win_mce.Base.{
  ℕ, zero, ◌≡◌, inl, inr, ◌∙◌, Option, none, some, List, [], ◌∷◌, ℤ, arith, ◌==◌, Option-cases,
  if◌then◌else◌, is_neg, pos, negsuc, drop, length, ltb, sub64, suc, not, ◌&&◌, Bool, true, false,
}
use usbmuxd_win_mce.State.{World, MuxConnection, MuxDevice}
use usbmuxd_win_mce.State.Monad.{
  M, done, skip, pure, store_conn, ◌>>=◌, ◌>>◌, load_conn, load_device, store_device, load_usb,
  deref,
}
use usbmuxd_win_mce.State.Monad.Runs.{>>=-eq-done}
use usbmuxd_win_mce.Env.{Env}
use usbmuxd_win_mce.Client.Socket.{client_write}
use usbmuxd_win_mce.Device.Lookup.{get_mux_connection, first_conn, first_device, is_client}
use usbmuxd_win_mce.Device.Packet.{
  send_tcp, send_segment, send_packet, send_sized, usb_send, mstime64, segment_header, acked,
}
use usbmuxd_win_mce.Wire.{MuxProtocol, header_size, tcp_header, th_rst}
use usbmuxd_win_mce.Device.Teardown.{
  flush, is_dev_dead, is_dying, is_refused, flush_loop, unlink_conn, teardown_reset,
}

-- An operation that leaves the clients alone.
abbrev pub Untouched : {A : Type 0} → M A → Type 0
Untouched {A} m = (r : A) (w w' : World) → m w ≡ done r w' → w'.clients ≡ w.clients

pub >>=-Untouched :
    {A B : Type 0} (m : M A) (f : A → M B)
    → Untouched m
    → ((a : A) → Untouched (f a))
    → Untouched (m >>= f)
>>=-Untouched m f h k r w w' e =
    let (a, w₁, e₁, e₂) = >>=-eq-done m f {w = w} e in k a r w₁ w' e₂ ∙ h a w w₁ e₁

pub pure-Untouched : {A : Type 0} (a : A) → Untouched (pure a)
pure-Untouched a r w w' e = ground arith

pub store_conn-Untouched : (conn : ℕ) (c : MuxConnection) → Untouched (store_conn conn c)
store_conn-Untouched conn c r w w' e = ground arith

pub load_conn-Untouched : (conn : ℕ) → Untouched (load_conn conn)
load_conn-Untouched conn r w w' e = ground arith

pub load_device-Untouched : (dev : ℕ) → Untouched (load_device dev)
load_device-Untouched dev r w w' e = ground arith

pub store_device-Untouched : (dev : ℕ) (d : MuxDevice) → Untouched (store_device dev d)
store_device-Untouched dev d r w w' e = ground arith

pub load_usb-Untouched : (usbdev : ℕ) → Untouched (load_usb usbdev)
load_usb-Untouched usbdev r w w' e = ground arith

pub if-Untouched :
    {A : Type 0} (b : Bool) (m n : M A) → Untouched m → Untouched n → Untouched (if b then m else n)
if-Untouched true m n h k = h
if-Untouched false m n h k = k

module _ (env : Env) where
  pub mstime64-Untouched : Untouched (mstime64 env)
  unfolding mstime64
  mstime64-Untouched r w w' e = ground arith

  usb_send-Untouched : (usbdev : ℕ) (buf : List ℕ) → Untouched (usb_send env usbdev buf)
  unfolding usb_send
  usb_send-Untouched usbdev buf r w w' e = ground arith

  send_sized-Untouched :
      (dev : ℕ) (proto : MuxProtocol) (hdrlen : ℕ) (header payload : List ℕ)
      → Untouched (send_sized env dev proto hdrlen header payload)
  unfolding send_sized usb_send
  send_sized-Untouched dev proto hdrlen header payload r w w' e = ground arith

  pub send_packet-Untouched :
      (dev : ℕ) (proto : MuxProtocol) (header payload : List ℕ)
      → Untouched (send_packet env dev proto header payload)
  unfolding send_packet
  send_packet-Untouched dev proto header payload r w w' e =
      elim (Option-cases (header_size proto)) [
        | inl invalid ↦ ground arith
        | inr (n, h) ↦ send_sized-Untouched dev proto n header payload r w w' (ground arith)
      ]

  pub send_segment-Untouched :
      (c : MuxConnection) (flags : ℕ) (payload : List ℕ)
      → Untouched (send_segment env c flags payload)
  unfolding send_segment
  send_segment-Untouched c flags payload =
      >>=-Untouched
        (send_packet env c.dev MuxProtocol.tcp (tcp_header (segment_header c flags)) payload) _
        (send_packet-Untouched c.dev MuxProtocol.tcp _ payload)
        (λ res. if-Untouched (is_neg res) _ _ (pure-Untouched (res, c)) (
          >>=-Untouched (mstime64 env) _ mstime64-Untouched
            (λ now. pure-Untouched (res, acked c now))))

  pub send_tcp-Untouched :
      (conn flags : ℕ) (payload : List ℕ) → Untouched (send_tcp env conn flags payload)
  unfolding send_tcp
  send_tcp-Untouched conn flags payload =
      >>=-Untouched (load_conn conn) _ (load_conn-Untouched conn) (λ c.
        >>=-Untouched (send_segment env c flags payload) _ (send_segment-Untouched c flags payload)
          (λ (res, d).
            >>=-Untouched (store_conn conn d) _ (store_conn-Untouched conn d)
              (λ _. pure-Untouched res)))

  pub client_write-Untouched :
      (client : ℕ) (bytes : List ℕ) → Untouched (client_write env client bytes)
  unfolding client_write
  client_write-Untouched client bytes r w w' e = ground arith

  pub unlink_conn-Untouched : (dev conn : ℕ) → Untouched (unlink_conn env dev conn)
  unfolding unlink_conn
  unlink_conn-Untouched dev conn r w w' e = ground arith

  -- What the loop does after a write of `size` bytes.
  flush_end : ℕ → ℕ → ℕ → ℕ → MuxConnection → ℤ → M (Unit {0})
  flush_end fuel conn client tm_last c size = elim size [
    | negsuc _ ↦ skip
    | pos zero ↦ do
      tm_now ← mstime64 env
      if ltb 1000 (sub64 tm_now tm_last) then skip else flush_loop env fuel conn client tm_last
    | pos (suc n) ↦ do
      store_conn conn (record c { ib_buf = drop (suc n) c.ib_buf })
      if suc n == length c.ib_buf
          then skip
          else (do tm ← mstime64 env; flush_loop env fuel conn client tm)
  ]

  flush_end-Untouched :
      (fuel conn client tm_last : ℕ) (c : MuxConnection)
      → ((t : ℕ) → Untouched (flush_loop env fuel conn client t))
      → (size : ℤ) → Untouched (flush_end fuel conn client tm_last c size)
  unfolding flush_end
  flush_end-Untouched fuel conn client tm_last c h (negsuc k) = pure-Untouched tt
  flush_end-Untouched fuel conn client tm_last c h (pos zero) =
      >>=-Untouched (mstime64 env) _ mstime64-Untouched
        (λ now. if-Untouched (ltb 1000 (sub64 now tm_last)) _ _ (pure-Untouched tt) (h tm_last))
  flush_end-Untouched fuel conn client tm_last c h (pos (suc n)) =
      >>=-Untouched (store_conn conn (record c { ib_buf = drop (suc n) c.ib_buf })) _
        (store_conn-Untouched conn _)
        (λ _.
          if-Untouched (suc n == length c.ib_buf) _ _ (pure-Untouched tt)
            (>>=-Untouched (mstime64 env) _ mstime64-Untouched (λ tm. h tm)))

  flush_loop-Untouched :
      (fuel conn client tm_last : ℕ) → Untouched (flush_loop env fuel conn client tm_last)
  unfolding flush_loop flush_end
  flush_loop-Untouched zero conn client tm_last = pure-Untouched tt
  flush_loop-Untouched (suc fuel) conn client tm_last =
      >>=-Untouched (load_conn conn) _ (load_conn-Untouched conn) (λ c.
        >>=-Untouched (client_write env client c.ib_buf) (flush_end fuel conn client tm_last c)
          (client_write-Untouched client c.ib_buf)
          (λ size.
            flush_end-Untouched fuel conn client tm_last c (flush_loop-Untouched fuel conn client)
              size))

  pub flush-Untouched : (fuel conn client : ℕ) → Untouched (flush env fuel conn client)
  unfolding flush
  flush-Untouched fuel conn client =
      >>=-Untouched (mstime64 env) _ mstime64-Untouched (flush_loop-Untouched fuel conn client)

  pub teardown_reset-Untouched : (fuel conn : ℕ) → Untouched (teardown_reset env fuel conn)
  unfolding teardown_reset
  teardown_reset-Untouched fuel conn =
      >>=-Untouched (load_conn conn) _ (load_conn-Untouched conn) (λ c.
        >>=-Untouched (load_device c.dev) _ (load_device-Untouched c.dev) (λ d.
          if-Untouched
            (not (is_dev_dead d.state) && not (is_dying c.state) && not (is_refused c.state)) _ _
            (>>=-Untouched (send_tcp env conn th_rst []) _ (send_tcp-Untouched conn th_rst [])
              (λ _. pure-Untouched tt))
            (pure-Untouched tt)))

pub first_device-Untouched :
    (test : MuxDevice → Bool) (l : List ℕ) → Untouched (first_device test l)
unfolding first_device
first_device-Untouched test [] = pure-Untouched none
first_device-Untouched test (p ∷ ps) =
    >>=-Untouched (load_device p) _ (load_device-Untouched p)
      (λ d. if-Untouched (test d) _ _ (pure-Untouched (some p)) (first_device-Untouched test ps))

pub first_conn-Untouched :
    (test : MuxConnection → Bool) (l : List ℕ) → Untouched (first_conn test l)
unfolding first_conn
first_conn-Untouched test [] = pure-Untouched none
first_conn-Untouched test (p ∷ ps) =
    >>=-Untouched (load_conn p) _ (load_conn-Untouched p)
      (λ c. if-Untouched (test c) _ _ (pure-Untouched (some p)) (first_conn-Untouched test ps))

pub deref-Untouched : {A : Type 0} (o : Option A) → Untouched (deref o)
deref-Untouched none r w w' e = absurd (ground arith)
deref-Untouched (some a) r w w' e = ground arith

-- The connection of a client on the device that was found.
connection_at : ℕ → Option ℕ → M (Option ℕ)
connection_at client found = elim found [
  | none ↦ pure none
  | some p ↦ do
    d ← load_device p
    cs ← deref d.connections
    first_conn (λ c. is_client client c.client) cs
]

connection_at-Untouched : (client : ℕ) (found : Option ℕ) → Untouched (connection_at client found)
unfolding connection_at
connection_at-Untouched client none = pure-Untouched none
connection_at-Untouched client (some p) =
    >>=-Untouched (load_device p) _ (load_device-Untouched p) (λ d.
      >>=-Untouched (deref d.connections) _ (deref-Untouched d.connections)
        (λ cs. first_conn-Untouched (λ c. is_client client c.client) cs))

pub get_mux_connection-Untouched :
    (device_id client : ℕ) → Untouched (get_mux_connection device_id client)
unfolding get_mux_connection connection_at
get_mux_connection-Untouched device_id client r w w' e =
    >>=-Untouched (first_device (λ d. d.id == device_id) w.device_list) (connection_at client)
      (first_device-Untouched (λ d. d.id == device_id) w.device_list)
      (connection_at-Untouched client) r w w' e

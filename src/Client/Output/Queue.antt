-- ===== src/Client/Output/Queue.antt =====
-- What a message adds to a client's output buffer (src/client.c).
use usbmuxd_win_mce.Base.{
  ℕ, ◌+◌, ◌≤◌, ◌<◌, ◌^◌, ◌≡◌, ◌⊎◌, inl, inr, refl, ap, sym, ◌∙◌, Option-cases, Bool, true, false,
  none, some, List, ◌++◌, ℤ, pos, neg, arith, length, length-append, le32_at, ◌==◌, add32,
}
use usbmuxd_win_mce.State.{World, MuxClient}
use usbmuxd_win_mce.State.Monad.{done, put}
use usbmuxd_win_mce.Env.{Env}
use usbmuxd_win_mce.Client.Output.{
  usbmuxd_header, usbmuxd_header_size, reserve, enlarged, output_buffer_add_message,
}

-- The header is sixteen bytes that carry the length, the version, the message and the tag, each below
-- 2 ^ 32, whatever follows.
pub usbmuxd_header_lem :
    (len version message tag : ℕ) (rest : List ℕ)
    → len < 2 ^ 32
    → version < 2 ^ 32
    → message < 2 ^ 32
    → tag < 2 ^ 32
    → let m = usbmuxd_header len version message tag ++ rest in
      (le32_at m 0 ≡ len)
      × (le32_at m 4 ≡ version)
      × (le32_at m 8 ≡ message)
      × (le32_at m 12 ≡ tag)
      × (length (usbmuxd_header len version message tag) ≡ usbmuxd_header_size)
unfolding usbmuxd_header
usbmuxd_header_lem len version message tag rest a b c d = ground arith

-- The buffer of a client that exists, holds what it may hold, and can grow by the message with no
-- wrap of uint32_t.
pub record HasRoom (c : MuxClient) (buf : List ℕ) (n : ℕ) : Type 0 where
  pub there : c.ob_buf ≡ some buf
  pub within : length buf ≤ c.ob_capacity
  pub no_wrap : c.ob_capacity + n + 8192 < 2 ^ 32

-- Room that is granted is enough, and keeps the bytes.
reserve_lem :
    (granted : Bool) (c c' : MuxClient) (buf : List ℕ) (n : ℕ)
    → HasRoom c buf n
    → reserve granted c n ≡ some c'
    → (c'.ob_buf ≡ some buf) × (length buf + n ≤ c'.ob_capacity)
unfolding reserve
reserve_lem granted c c' buf n v e = ground arith

-- Only a refused realloc denies it.
reserve_refused :
    (granted : Bool) (c : MuxClient) (n : ℕ) → reserve granted c n ≡ none → granted ≡ false
unfolding reserve
reserve_refused granted c n e = ground arith

reserve_keeps :
    (granted : Bool) (c c' : MuxClient) (n : ℕ)
    → reserve granted c n ≡ some c'
    → (c'.state ≡ c.state) × (c'.events ≡ c.events)
unfolding reserve
reserve_keeps granted c c' n e = ground arith

-- After the call the client has either the whole message behind what was there, within the capacity
-- that it now has, or nothing changed of it and the result is -1, which needs a refused realloc.
pub record Queued (env : Env) (client : ℕ) (c : MuxClient) (buf message : List ℕ) (r : ℤ)
    (w w' : World) : Type 0 where
  pub client_after : MuxClient
  pub stored : w'.clients client ≡ some client_after
  pub outcome :
      ((r ≡ pos (length message))
        × (client_after.ob_buf ≡ some (buf ++ message))
        × (length (buf ++ message) ≤ client_after.ob_capacity)
        × (client_after.events.pollout ≡ true)
        × (client_after.state ≡ c.state))
      ⊎ ((r ≡ neg 1)
          × (client_after ≡ c)
          × (env.realloc w.calls (enlarged c.ob_capacity (length message)) ≡ false))
  pub others : (q : ℕ) → (q == client) ≡ false → w'.clients q ≡ w.clients q

length-message :
    (len version message tag : ℕ) (payload : List ℕ)
    → length (usbmuxd_header len version message tag ++ payload)
      ≡ usbmuxd_header_size + length payload
unfolding usbmuxd_header
length-message len version message tag payload = omega arith

module _ (env : Env) where
  -- A message for a client whose buffer is there and has room, or may grow with no wrap of uint32_t,
  -- is queued whole or not at all, and no other client is touched.
  pub output_buffer_add_message_lem :
      (client tag msg : ℕ) (payload : List ℕ) (c : MuxClient) (buf : List ℕ) (w : World)
      → w.clients client ≡ some c
      → HasRoom c buf (usbmuxd_header_size + length payload)
      → (r : ℤ) × (w' : World) × (output_buffer_add_message env client tag msg payload w
          ≡ done r w')
        × Queued env client c buf
            (usbmuxd_header (usbmuxd_header_size + length payload) c.proto_version msg tag
              ++ payload)
            r
            w
            w'
  unfolding output_buffer_add_message
  output_buffer_add_message_lem client tag msg payload c buf w h v =
      elim (Option-cases (reserve granted c len)) [
        | inl e ↦ (
          neg 1,
          record w { calls = w.calls + 1 },
          ground arith,
          record {
            client_after = c;
            stored = h;
            outcome = inr (
              refl,
              refl,
              rw
                  (
                    length-message (usbmuxd_header_size + length payload) c.proto_version msg tag
                        payload,
                    ← same,
                  )
                  (reserve_refused granted c len e),
            );
            others = λ q ne. refl;
          },
        )
        | inr (c', e) ↦
            let fits = reserve_lem granted c c' buf len (rw same v) e in
            let after = record c' {
              ob_buf = some (buf ++ (header ++ payload));
              events = record { pollin = c'.events.pollin; pollout = true };
            } in
            (
              pos len,
              record w { calls = w.calls + 1; clients = put w.clients client (some after) },
              ground (arith, same, fits.0),
              record {
                client_after = after;
                stored = ground arith;
                outcome = inl (
                  ap pos (same ∙ sym (length-message _ c.proto_version msg tag payload)),
                  refl,
                  omega (
                    arith,
                    length-append buf (header ++ payload),
                    length-message (usbmuxd_header_size + length payload) c.proto_version msg tag
                        payload,
                    fits.1,
                    same,
                  ),
                  refl,
                  (reserve_keeps granted c c' len e).0,
                );
                others = λ q ne. ground arith;
              },
            )
      ]
    where
      len : ℕ
      len = add32 usbmuxd_header_size (length payload)

      same : len ≡ usbmuxd_header_size + length payload
      same = omega (arith, v.no_wrap)

      header : List ℕ
      header = usbmuxd_header (usbmuxd_header_size + length payload) c.proto_version msg tag

      granted : Bool
      granted = env.realloc w.calls (enlarged c.ob_capacity len)

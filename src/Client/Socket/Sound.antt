-- ===== src/Client/Socket/Sound.antt =====
-- The buffers of every client of the state, over the operations of src/client.c that change clients.
use usbmuxd_win_mce.Base.{
  ℕ, ◌≡◌, ◌⊎◌, inl, inr, refl, Bool, true, false, Option, none, some, List, ℤ, arith, ◌==◌,
  Option-cases, Bool-cases, subst, ap, add32, length, le32, ◌++◌, is_neg, neg, pos, if◌then◌else◌,
}
use usbmuxd_win_mce.State.{World, MuxClient, ClientState, Events}
use usbmuxd_win_mce.State.Monad.{M, done, pure, ◌>>=◌, ◌>>◌, put, load_client, store_client}
use usbmuxd_win_mce.State.Monad.Runs.{>>=-eq-done}
use usbmuxd_win_mce.Env.{Env}
use usbmuxd_win_mce.Client.Output.{
  output_buffer_add_message, reserve, send_plist, send_result, enlarged, usbmuxd_header,
  usbmuxd_header_size, message_plist, message_result, result_plist,
}
use usbmuxd_win_mce.Client.Socket.{
  client_notify_connect, client_set_events, notified, with_events, is_connecting1,
}
use usbmuxd_win_mce.Client.Socket.Lifecycle.{IsSound, has_buffer}

abbrev pub is_client_dead : ClientState → Bool
is_client_dead ClientState.dead = true
is_client_dead _ = false

-- Every client that is not being closed is sound.
abbrev pub AllSound : World → Type 0
AllSound w =
    (q : ℕ) (c : MuxClient) → w.clients q ≡ some c → is_client_dead c.state ≡ false → IsSound c

-- An operation that keeps it so.
abbrev pub KeepsSound : {A : Type 0} → M A → Type 0
KeepsSound {A} m = (r : A) (w w' : World) → AllSound w → m w ≡ done r w' → AllSound w'

pub >>=-KeepsSound :
    {A B : Type 0} (m : M A) (f : A → M B)
    → KeepsSound m
    → ((a : A) → KeepsSound (f a))
    → KeepsSound (m >>= f)
>>=-KeepsSound m f k l r w w' v e =
    let (a, w₁, e₁, e₂) = >>=-eq-done m f {w = w} e in l a r w₁ w' (k a w w₁ v e₁) e₂

-- An operation that leaves the clients alone.
pub untouched-KeepsSound :
    {A : Type 0} (m : M A)
    → ((r : A) (w w' : World) → m w ≡ done r w' → w'.clients ≡ w.clients)
    → KeepsSound m
untouched-KeepsSound m same r w w' v e q c h = v q c (ground (arith, same r w w' e))

pub if-KeepsSound :
    {A : Type 0} (b : Bool) (m n : M A)
    → KeepsSound m
    → KeepsSound n
    → KeepsSound (if b then m else n)
if-KeepsSound true m n h k = h
if-KeepsSound false m n h k = k

pub store_sound :
    (p : ℕ) (c : MuxClient) (w : World)
    → AllSound w
    → (is_client_dead c.state ≡ false → IsSound c)
    → (w' : World) → w'.clients ≡ put w.clients p (some c)
    → AllSound w'
store_sound p c w v s w' same q d h alive = elim (Bool-cases (p == q)) [
  | inl hit ↦ subst (λ x. is_client_dead x.state ≡ false → IsSound x) (own hit) s alive
  | inr miss ↦ v q d (ground (arith, same)) alive
]
  where
    own : (p == q) ≡ true → c ≡ d
    own hit = ground (arith, same)

reserve_same :
    (granted : Bool) (c c' : MuxClient) (n : ℕ)
    → reserve granted c n ≡ some c'
    → (c'.state ≡ c.state) × (c'.events ≡ c.events) × (c'.ib_buf ≡ c.ib_buf)
unfolding reserve
reserve_same granted c c' n e = ground arith

-- What a queued message changes of a client: its output, and no more of what soundness speaks of.
pub record SameInput (c c' : MuxClient) : Type 0 where
  pub state : c'.state ≡ c.state
  pub pollin : c'.events.pollin ≡ c.events.pollin
  pub ib_buf : c'.ib_buf ≡ c.ib_buf
  pub ob_buf : has_buffer c'.ob_buf ≡ true

-- An operation that at most queues a message for a client.
abbrev pub Queues : {A : Type 0} → ℕ → M A → Type 0
Queues {A} client m =
    (r : A) (w w' : World)
    → m w ≡ done r w'
    → (w'.clients ≡ w.clients)
      ⊎ ((c c' : MuxClient) × (w.clients client ≡ some c)
          × (w'.clients ≡ put w.clients client (some c'))
          × SameInput c c')

SameInput-IsSound : (c c' : MuxClient) → SameInput c c' → IsSound c → IsSound c'
SameInput-IsSound c c' s v = ground arith

pub Queues-KeepsSound : {A : Type 0} (client : ℕ) (m : M A) → Queues client m → KeepsSound m
Queues-KeepsSound client m h r w w' v e = elim (h r w w' e) [
  | inl same ↦ λ q c k alive. v q c (ground (arith, same)) alive
  | inr (c, c', there, same, s) ↦
      store_sound client c' w v
        (λ alive. SameInput-IsSound c c' s (v client c there (ground (arith, s.state)))) w' same
]

Queues-state :
    {A : Type 0} (client : ℕ) (m : M A)
    → Queues client m
    → (c d : MuxClient) (r : A) (w w' : World) → m w ≡ done r w'
    → w.clients client ≡ some c
    → w'.clients client ≡ some d
    → d.state ≡ c.state
Queues-state client m h c d r w w' e there here = elim (h r w w' e) [
  | inl same ↦ ground (arith, same)
  | inr (b, b', before, same, s) ↦ ground (arith, same, s.state)
]

notified-IsSound :
    (c : MuxClient) (result : ℕ)
    → is_connecting1 c.state ≡ true
    → IsSound c
    → IsSound (notified c result)
unfolding notified
notified-IsSound c result s v = ground arith

-- What `client_notify_connect` does after its message.
notify_end : ℕ → ℕ → ℤ → M ℤ
notify_end client result sent =
    if is_neg sent
    then pure (neg 1)
    else (do c ← load_client client; store_client client (notified c result); pure (pos 0))

with_events-IsSound : (c : MuxClient) (events : Events) → IsSound c → IsSound (with_events c events)
unfolding with_events
with_events-IsSound c events v = ground arith

with_events-state : (c : MuxClient) (events : Events) → (with_events c events).state ≡ c.state
unfolding with_events
with_events-state c events = ground arith

pub client_set_events-KeepsSound :
    (client : Option ℕ) (events : Events) → KeepsSound (client_set_events client events)
unfolding client_set_events
client_set_events-KeepsSound none events r w w' v e = absurd (ground arith)
client_set_events-KeepsSound (some client) events r w w' v e =
    elim (Option-cases (w.clients client)) [
      | inl gone ↦ absurd (ground arith)
      | inr (c, there) ↦
          store_sound client (with_events c events) w v
            (λ alive.
              with_events-IsSound c events
                (v client c there (ground (arith, with_events-state c events))))
            w' (ground arith)
    ]

module _ (env : Env) where
  pub add_message-Queues :
      (client tag msg : ℕ) (payload : List ℕ)
      → Queues client (output_buffer_add_message env client tag msg payload)
  unfolding output_buffer_add_message
  add_message-Queues client tag msg payload r w w' e = elim (Option-cases (w.clients client)) [
    | inl gone ↦ absurd (ground arith)
    | inr (c, there) ↦ elim (Option-cases (reserve (granted c) c len)) [
      | inl refused ↦ inl (ground arith)
      | inr (d, room) ↦ elim (Option-cases d.ob_buf) [
        | inl freed ↦ absurd (ground arith)
        | inr (buf, b) ↦
            let (s, t, i) = reserve_same (granted c) c d len room in
            inr (
              c,
              queued c d buf,
              there,
              ground arith,
              record { state = s; pollin = ap (λ x. x.pollin) t; ib_buf = i; ob_buf = refl },
            )
      ]
    ]
  ]
    where
      len : ℕ
      len = add32 usbmuxd_header_size (length payload)

      granted : MuxClient → Bool
      granted c = env.realloc w.calls (enlarged c.ob_capacity len)

      queued : MuxClient → MuxClient → List ℕ → MuxClient
      queued c d buf = record d {
        ob_buf = some (buf ++ (usbmuxd_header len c.proto_version msg tag ++ payload));
        events = record { pollin = d.events.pollin; pollout = true };
      }

  pub send_plist-Queues : (client tag plist : ℕ) → Queues client (send_plist env client tag plist)
  unfolding send_plist
  send_plist-Queues client tag plist r w w' e = elim (Option-cases (env.plist.to_xml plist)) [
    | inl failed ↦ inl (ground arith)
    | inr (xml, x) ↦ add_message-Queues client tag message_plist xml r w w' (ground arith)
  ]

  pub send_result-Queues :
      (client tag result : ℕ) → Queues client (send_result env client tag result)
  unfolding send_result
  send_result-Queues client tag result r w w' e = elim (Option-cases (w.clients client)) [
    | inl gone ↦ absurd (ground arith)
    | inr (c, there) ↦ elim (Bool-cases (c.proto_version == 1)) [
      | inl plain ↦ send_plist-Queues client tag (result_plist env result) r w w' (ground arith)
      | inr binary ↦
          add_message-Queues client tag message_result (le32 result) r w w' (ground arith)
    ]
  ]

  notify_sent :
      (client result : ℕ) (c : MuxClient) (r : ℤ) (w w' : World)
      → AllSound w
      → w.clients client ≡ some c
      → is_connecting1 c.state ≡ true
      → (send_result env client c.connect_tag result >>= notify_end client result) w ≡ done r w'
      → AllSound w'
  unfolding notify_end
  notify_sent client result c r w w' v there asking e =
      let (sent, w₁, e₁, e₂) = >>=-eq-done first (notify_end client result) e in
      let v₁ = Queues-KeepsSound client first queues sent w w₁ v e₁ in
      elim (Bool-cases (is_neg sent)) [
        | inl failed ↦ λ q d k alive. v₁ q d (ground arith) alive
        | inr sent_it ↦ elim (Option-cases (w₁.clients client)) [
          | inl gone ↦ absurd (ground arith)
          | inr (d, here) ↦
              let same = Queues-state client first queues c d sent w w₁ e₁ there here in
              store_sound client (notified d result) w₁ v₁
                (λ alive.
                  notified-IsSound d result (ground (arith, same))
                    (v₁ client d here (ground (arith, same))))
                w' (ground arith)
        ]
      ]
    where
      first : M ℤ
      first = send_result env client c.connect_tag result

      queues : Queues client first
      queues = send_result-Queues client c.connect_tag result

  -- Telling a client the outcome of its connect request.
  pub client_notify_connect-KeepsSound :
      (client result : ℕ) → KeepsSound (client_notify_connect env client result)
  unfolding client_notify_connect notify_end
  client_notify_connect-KeepsSound client result r w w' v e =
      elim (Option-cases (w.clients client)) [
        | inl gone ↦ absurd (ground arith)
        | inr (c, there) ↦ elim (Bool-cases (is_connecting1 c.state)) [
          | inl asking ↦ notify_sent client result c r w w' v there asking (ground arith)
          | inr other ↦ λ q d k alive. v q d (ground arith) alive
        ]
      ]

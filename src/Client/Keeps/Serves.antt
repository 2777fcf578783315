-- ===== src/Client/Keeps/Serves.antt =====
-- Rules by which an operation serves a client that waits for its requests to be read: the buffers of
-- all clients are kept, and the client is in the same state afterwards. `Ends` is for an operation that
-- may change the state.
use usbmuxd_win_mce.Base.{
  ℕ, ◌≡◌, refl, inl, inr, Bool, true, false, Option, none, some, List, [], ◌∷◌, ℤ, arith, ◌==◌,
  Bool-cases, Option-cases, if◌then◌else◌,
}
use usbmuxd_win_mce.State.{World, MuxClient}
use usbmuxd_win_mce.State.Monad.{M, done, pure, ◌>>=◌, ◌>>◌, maybe, put, load_client, store_client}
use usbmuxd_win_mce.State.Monad.Runs.{>>=-eq-done}
use usbmuxd_win_mce.Client.Socket.{is_listen}
use usbmuxd_win_mce.Client.Socket.Sound.{
  AllSound, Queues, Queues-KeepsSound, untouched-KeepsSound, store_sound,
}
use usbmuxd_win_mce.Client.Socket.Lifecycle.{IsSound}
use usbmuxd_win_mce.Client.Broadcast.{to_listeners}
use usbmuxd_win_mce.Client.Command.{is_command}
use usbmuxd_win_mce.Client.Keeps.{Keeps}
use usbmuxd_win_mce.Client.Keeps.Leaves.{Leaves}

-- The client is in the state CLIENT_COMMAND.
abbrev pub AtCommand : ℕ → World → Type 0
AtCommand p w = (c : MuxClient) → w.clients p ≡ some c → is_command c.state ≡ true

pub record Serves (p : ℕ) {A : Type 0} (m : M A) : Type 0 where
  pub at :
      (r : A) (w w' : World)
      → AllSound w
      → AtCommand p w
      → m w ≡ done r w'
      → AllSound w' × AtCommand p w'

pub record Ends (p : ℕ) {A : Type 0} (m : M A) : Type 0 where
  pub at : (r : A) (w w' : World) → AllSound w → AtCommand p w → m w ≡ done r w' → AllSound w'

module _ (p : ℕ) where
  module _ {A B : Type 0} where
    pub Serves-bind :
        (m : M A) (f : A → M B) → Serves p m → ((a : A) → Serves p (f a)) → Serves p (m >>= f)
    Serves-bind m f h k = record {
      at = λ r w w' v o e.
          let (a, w₁, e₁, e₂) = >>=-eq-done m f {w = w} e in
          let (v₁, o₁) = h.at a w w₁ v o e₁ in (k a).at r w₁ w' v₁ o₁ e₂;
    }

  pub Serves-then :
      {B : Type 0} (m : M (Unit {0})) (k : M B) → Serves p m → Serves p k → Serves p (m >> k)
  Serves-then m k h l = Serves-bind m (λ _. k) h (λ _. l)

  module _ {A : Type 0} where
    pub Serves-Leaves : (m : M A) → Leaves m → Serves p m
    Serves-Leaves m h = record {
      at = λ r w w' v o e.
          (untouched-KeepsSound m h.at r w w' v e, λ c here. o c (ground (arith, h.at r w w' e)));
    }

    pub Serves-pure : (a : A) → Serves p (pure a)
    Serves-pure a = Serves-Leaves (pure a) (record { at = λ r w w' e. ground arith })

    pub Serves-if : (b : Bool) (m n : M A) → Serves p m → Serves p n → Serves p (if b then m else n)
    Serves-if true m n h k = h
    Serves-if false m n h k = k

    pub Serves-maybe :
        {C : Type 0} (o : Option C) (m : M A) (f : C → M A)
        → Serves p m
        → ((c : C) → Serves p (f c))
        → Serves p (maybe o m f)
    Serves-maybe none m f h k = h
    Serves-maybe (some c) m f h k = k c

    -- A message for any client.
    pub Serves-Queues : (q : ℕ) (m : M A) → Queues q m → Serves p m
    Serves-Queues q m h = record {
      at = λ r w w' v o e. (
        Queues-KeepsSound q m h r w w' v e,
        λ d here. elim (h r w w' e) [
          | inl same ↦ o d (ground (arith, same))
          | inr (c, c', there, same, s) ↦ elim (Bool-cases (q == p)) [
            | inl hit ↦ ground (arith, s.state, o c (ground arith))
            | inr miss ↦ o d (ground (arith, same))
          ]
        ],
      );
    }

    -- A change of the client that keeps it sound and in its state.
    pub Serves-update :
        (g : MuxClient → MuxClient) (k : MuxClient → M A)
        → ((c : MuxClient) → is_command c.state ≡ true → is_command (g c).state ≡ true)
        → ((c : MuxClient) → is_command c.state ≡ true → IsSound c → IsSound (g c))
        → ((c : MuxClient) → Serves p (k c))
        → Serves p (load_client p >>= λ c. store_client p (g c) >> k c)
    Serves-update g k stays sound l = record {
      at = λ r w w' v o e. elim (Option-cases (w.clients p)) [
        | inl gone ↦ absurd (ground arith)
        | inr (c, there) ↦
            let w₁ = record w { clients = put w.clients p (some (g c)) } in
            (l c).at r w₁ w'
              (store_sound p (g c) w v
                (λ alive. sound c (o c there) (v p c there (ground (arith, o c there)))) w₁ refl)
              (λ d here. ground (arith, stays c (o c there))) (ground arith)
      ];
    }

  pub to_listeners-Serves :
      (send : ℕ → M ℤ)
      → ((q : ℕ) → Queues q (send q))
      → (l : List ℕ) → Serves p (to_listeners send l)
  unfolding to_listeners
  to_listeners-Serves send h [] = Serves-pure tt
  to_listeners-Serves send h (q ∷ qs) =
      Serves-bind (load_client q) _ (Serves-Leaves _ (record { at = λ r w w' e. ground arith }))
        (λ c.
          Serves-then _ _
            (Serves-if (is_listen c.state) _ _
              (Serves-bind (send q) _ (Serves-Queues q (send q) (h q)) (λ _. Serves-pure tt))
              (Serves-pure tt))
            (to_listeners-Serves send h qs))

  module _ {A B : Type 0} where
    pub Ends-bind :
        (m : M A) (f : A → M B) → Serves p m → ((a : A) → Ends p (f a)) → Ends p (m >>= f)
    Ends-bind m f h k = record {
      at = λ r w w' v o e.
          let (a, w₁, e₁, e₂) = >>=-eq-done m f {w = w} e in
          let (v₁, o₁) = h.at a w w₁ v o e₁ in (k a).at r w₁ w' v₁ o₁ e₂;
    }

  module _ {A : Type 0} where
    pub Ends-Serves : (m : M A) → Serves p m → Ends p m
    Ends-Serves m h = record { at = λ r w w' v o e. (h.at r w w' v o e).0 }

    pub Ends-if : (b : Bool) (m n : M A) → Ends p m → Ends p n → Ends p (if b then m else n)
    Ends-if true m n h k = h
    Ends-if false m n h k = k

    pub Ends-maybe :
        {C : Type 0} (o : Option C) (m : M A) (f : C → M A)
        → Ends p m
        → ((c : C) → Ends p (f c))
        → Ends p (maybe o m f)
    Ends-maybe none m f h k = h
    Ends-maybe (some c) m f h k = k c

    -- A change of the client that keeps it sound and in its state, before the state may change.
    pub Ends-after_update :
        (g : MuxClient → MuxClient) (k : MuxClient → M A)
        → ((c : MuxClient) → is_command c.state ≡ true → is_command (g c).state ≡ true)
        → ((c : MuxClient) → is_command c.state ≡ true → IsSound c → IsSound (g c))
        → ((c : MuxClient) → Ends p (k c))
        → Ends p (load_client p >>= λ c. store_client p (g c) >> k c)
    Ends-after_update g k stays sound l = record {
      at = λ r w w' v o e. elim (Option-cases (w.clients p)) [
        | inl gone ↦ absurd (ground arith)
        | inr (c, there) ↦
            let w₁ = record w { clients = put w.clients p (some (g c)) } in
            (l c).at r w₁ w'
              (store_sound p (g c) w v
                (λ alive. sound c (o c there) (v p c there (ground (arith, o c there)))) w₁ refl)
              (λ d here. ground (arith, stays c (o c there))) (ground arith)
      ];
    }

    -- A change of the client that keeps it sound, and what follows it.
    pub Ends-update :
        (g : MuxClient → MuxClient) (k : MuxClient → M A)
        → ((c : MuxClient) → is_command c.state ≡ true → IsSound c → IsSound (g c))
        → ((c : MuxClient) → Keeps (k c))
        → Ends p (load_client p >>= λ c. store_client p (g c) >> k c)
    Ends-update g k sound l = record {
      at = λ r w w' v o e. elim (Option-cases (w.clients p)) [
        | inl gone ↦ absurd (ground arith)
        | inr (c, there) ↦
            let w₁ = record w { clients = put w.clients p (some (g c)) } in
            (l c).at r w₁ w'
              (store_sound p (g c) w v
                (λ alive. sound c (o c there) (v p c there (ground (arith, o c there)))) w₁ refl)
              (ground arith)
      ];
    }

pub ruleset serves_rules = (Serves-bind, Serves-then, Serves-pure, Serves-if, Serves-maybe)

pub ruleset ends_rules = (serves_rules, Ends-bind, Ends-Serves, Ends-if, Ends-maybe)

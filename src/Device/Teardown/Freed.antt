-- ===== src/Device/Teardown/Freed.antt =====
-- What a teardown leaves behind (src/device.c).
use usbmuxd_win_mce.Base.{
  ℕ, ◌≡◌, inl, inr, refl, List, Option-cases, false, none, some, arith, contains,
}
use usbmuxd_win_mce.State.{World, MuxConnection, MuxDevice}
use usbmuxd_win_mce.State.Monad.{M, done, skip, ◌>>◌, free_conn}
use usbmuxd_win_mce.State.Monad.Runs.{>>-eq-done}
use usbmuxd_win_mce.Env.{Env, CollectionLaws}
use usbmuxd_win_mce.Device.Teardown.{
  teardown_with, teardown_client, teardown_reset, unlink_conn, abort_with, is_conn_dead,
}

-- The connection is freed, and the list of its device does not hold it.
pub record IsFreed (conn dev : ℕ) (w : World) : Type 0 where
  pub gone : w.conns conn ≡ none
  pub device : MuxDevice
  pub others : List ℕ
  pub here : w.devices dev ≡ some device
  pub listed : device.connections ≡ some others
  pub unlinked : contains conn others ≡ false

module _ (env : Env) (fuel : ℕ) where
  unlink_conn_lem :
      (dev conn : ℕ) (w w' : World)
      → CollectionLaws env
      → unlink_conn env dev conn w ≡ done tt w'
      → (d : MuxDevice) × (cs : List ℕ) × (w'.devices dev ≡ some d)
        × (d.connections ≡ some cs)
        × (contains conn cs ≡ false)
  unfolding unlink_conn
  unlink_conn_lem dev conn w w' laws e = elim (Option-cases (w.devices dev)) [
    | inl absent ↦ absurd (ground arith)
    | inr (d, here) ↦ elim (Option-cases d.connections) [
      | inl raw ↦ absurd (ground arith)
      | inr (cs, there) ↦ (
        record d { connections = some (env.collection_remove cs conn) },
        env.collection_remove cs conn,
        ground arith,
        refl,
        laws.contains-remove_self cs conn,
      )
    ]
  ]

  tail_frees :
      (dev conn : ℕ) (w w' : World)
      → CollectionLaws env
      → (unlink_conn env dev conn >> free_conn conn) w ≡ done tt w'
      → IsFreed conn dev w'
  tail_frees dev conn w w' laws e =
      let (w₁, e₁, f) = >>-eq-done (unlink_conn env dev conn) (free_conn conn) e in
      let (d, cs, p, q, r) = unlink_conn_lem dev conn w w₁ laws e₁ in
      record {
        gone = ground arith;
        device = d;
        others = cs;
        here = ground arith;
        listed = q;
        unlinked = r;
      }

  abbrev client_part : (ℕ → M (Unit {0})) → ℕ → MuxConnection → M (Unit {0})
  client_part close conn c = elim c.client [
    | none ↦ skip
    | some client ↦ teardown_client env fuel close conn client
  ]

  -- A teardown that ends, of a connection that is not already being torn down, has freed the
  -- connection and taken it off the list of its device, whatever closing the client does.
  pub teardown_with_frees :
      (close : ℕ → M (Unit {0})) (conn : ℕ) (c : MuxConnection) (w w' : World)
      → CollectionLaws env
      → w.conns conn ≡ some c
      → is_conn_dead c.state ≡ false
      → teardown_with env fuel close conn w ≡ done tt w'
      → IsFreed conn c.dev w'
  unfolding teardown_with
  teardown_with_frees close conn c w w' laws h live e =
      let (w₁, _, e₁) = >>-eq-done (teardown_reset env fuel conn) _ (opened e) in
      let (w₂, _, e₂) = >>-eq-done (client_part close conn c) _ e₁ in
      tail_frees c.dev conn w₂ w' laws e₂
    where
      opened :
          teardown_with env fuel close conn w ≡ done tt w'
          → (teardown_reset env fuel conn
                >> (client_part close conn c >> (unlink_conn env c.dev conn >> free_conn conn)))
              w
            ≡ done tt w'
      opened e = ground arith

  -- The client that `close` stands for is never closed by an aborted connect: its connection has
  -- forgotten it, so the mutual calls of teardown and close go no deeper.
  pub abort_with_lem :
      (f g : ℕ → M (Unit {0})) (device_id client : ℕ) (w : World)
      → abort_with env fuel f device_id client w ≡ abort_with env fuel g device_id client w
  unfolding abort_with teardown_with
  abort_with_lem f g device_id client w = ground arith

-- ===== src/Device/Teardown/Sound.antt =====
-- A teardown keeps the buffers of every client, with all the calls that it leads to: the notice of a
-- refused connect, the flush and the closing of the client (src/device.c, src/client.c).
use usbmuxd_win_mce.Base.{
  ℕ, inl, inr, Option, none, some, arith, ◌==◌, ◌&&◌, ◌||◌, Bool-cases, contains, ltb, length,
}
use usbmuxd_win_mce.State.{MuxClient, MuxConnection, MuxConnState, ClientState}
use usbmuxd_win_mce.State.Monad.{
  M, skip, when, modify, faults, ◌>>◌, load_conn, store_conn, load_client, store_client, free_conn,
  free_client,
}
use usbmuxd_win_mce.Env.{Env}
use usbmuxd_win_mce.Client.Output.{result_connrefused}
use usbmuxd_win_mce.Client.Socket.{client_notify_connect, is_connecting1, is_connecting2}
use usbmuxd_win_mce.Client.Socket.Sound.{
  KeepsSound, >>=-KeepsSound, untouched-KeepsSound, if-KeepsSound, client_notify_connect-KeepsSound,
}
use usbmuxd_win_mce.Device.Lookup.{get_mux_connection}
use usbmuxd_win_mce.Device.Teardown.{
  teardown_client, teardown_with, teardown_reset, unlink_conn, flush, abort_with,
  device_abort_connect, client_close, connection_teardown, is_conn_dead, is_refused, is_connecting,
}
use usbmuxd_win_mce.Device.Teardown.Untouched.{
  pure-Untouched, store_conn-Untouched, load_conn-Untouched, flush-Untouched,
  teardown_reset-Untouched, unlink_conn-Untouched, get_mux_connection-Untouched,
}

pub skip-KeepsSound : KeepsSound skip
skip-KeepsSound = untouched-KeepsSound skip (pure-Untouched tt)

-- An operation on what may be there.
pub optional-KeepsSound :
    (o : Option ℕ) (f : ℕ → M (Unit {0}))
    → ((p : ℕ) → KeepsSound (f p))
    → KeepsSound (elim o [ none ↦ skip | some p ↦ f p ])
optional-KeepsSound none f h = skip-KeepsSound
optional-KeepsSound (some p) f h = h p

pub load_conn-KeepsSound : (conn : ℕ) → KeepsSound (load_conn conn)
load_conn-KeepsSound conn = untouched-KeepsSound (load_conn conn) (load_conn-Untouched conn)

pub store_conn-KeepsSound : (conn : ℕ) (c : MuxConnection) → KeepsSound (store_conn conn c)
store_conn-KeepsSound conn c =
    untouched-KeepsSound (store_conn conn c) (store_conn-Untouched conn c)

free_conn-KeepsSound : (conn : ℕ) → KeepsSound (free_conn conn)
free_conn-KeepsSound conn = untouched-KeepsSound (free_conn conn) (λ r w w' e. ground arith)

pub load_client-KeepsSound : (client : ℕ) → KeepsSound (load_client client)
load_client-KeepsSound client = untouched-KeepsSound (load_client client) (λ r w w' e. ground arith)

pub free_client-KeepsSound : (client : ℕ) → KeepsSound (free_client client)
free_client-KeepsSound client r w w' v e q d h alive = elim (Bool-cases (client == q)) [
  | inl hit ↦ absurd (ground arith)
  | inr miss ↦ v q d (ground arith) alive
]

store_dead-KeepsSound :
    (client : ℕ) (c : MuxClient)
    → KeepsSound (store_client client (record c { state = ClientState.dead }))
store_dead-KeepsSound client c r w w' v e q d h alive = elim (Bool-cases (client == q)) [
  | inl hit ↦ absurd (ground arith)
  | inr miss ↦ v q d (ground arith) alive
]

module _ (env : Env) (fuel : ℕ) where
  teardown_client-KeepsSound :
      (close : ℕ → M (Unit {0})) (conn client : ℕ)
      → ((p : ℕ) → KeepsSound (close p))
      → KeepsSound (teardown_client env fuel close conn client)
  unfolding teardown_client
  teardown_client-KeepsSound close conn client h =
      >>=-KeepsSound (load_conn conn) _ (load_conn-KeepsSound conn) (λ c.
        if-KeepsSound (is_refused c.state || is_connecting c.state) _ _
          (>>=-KeepsSound (client_notify_connect env client result_connrefused) _
            (client_notify_connect-KeepsSound env client result_connrefused) (λ _. skip-KeepsSound))
          (>>=-KeepsSound (store_conn conn (record c { state = MuxConnState.dead })) _
            (store_conn-KeepsSound conn _)
            (λ _.
              >>=-KeepsSound
                (when (c.events.pollout && ltb 0 (length c.ib_buf)) (flush env fuel conn client)) _
                (if-KeepsSound (c.events.pollout && ltb 0 (length c.ib_buf)) _ _
                  (untouched-KeepsSound (flush env fuel conn client)
                    (flush-Untouched env fuel conn client))
                  skip-KeepsSound)
                (λ _. h client))))

  teardown_with-KeepsSound :
      (close : ℕ → M (Unit {0})) (conn : ℕ)
      → ((p : ℕ) → KeepsSound (close p))
      → KeepsSound (teardown_with env fuel close conn)
  unfolding teardown_with
  teardown_with-KeepsSound close conn h =
      >>=-KeepsSound (load_conn conn) _ (load_conn-KeepsSound conn) (λ c.
        if-KeepsSound (is_conn_dead c.state) _ _ skip-KeepsSound (
          >>=-KeepsSound (teardown_reset env fuel conn) _
            (untouched-KeepsSound (teardown_reset env fuel conn)
              (teardown_reset-Untouched env fuel conn))
            (λ _.
              >>=-KeepsSound
                (elim c.client [
                  | none ↦ skip
                  | some client ↦ teardown_client env fuel close conn client
                ])
                _ (optional-KeepsSound c.client _ (λ p. teardown_client-KeepsSound close conn p h))
                (λ _.
                  >>=-KeepsSound (unlink_conn env c.dev conn) _
                    (untouched-KeepsSound (unlink_conn env c.dev conn)
                      (unlink_conn-Untouched env c.dev conn))
                    (λ _. free_conn-KeepsSound conn)))))

  pub device_abort_connect-KeepsSound :
      (device_id client : ℕ) → KeepsSound (device_abort_connect env fuel device_id client)
  unfolding device_abort_connect abort_with
  device_abort_connect-KeepsSound device_id client =
      >>=-KeepsSound (get_mux_connection device_id client) _
        (untouched-KeepsSound (get_mux_connection device_id client)
          (get_mux_connection-Untouched device_id client))
        (λ found. optional-KeepsSound found _ (λ conn.
          >>=-KeepsSound (load_conn conn) _ (load_conn-KeepsSound conn) (λ c.
            >>=-KeepsSound (store_conn conn (record c { client = none })) _
              (store_conn-KeepsSound conn _)
              (λ _.
                teardown_with-KeepsSound (λ _. faults) conn
                  (λ p r w w' v e. absurd (ground arith))))))

  pub client_close-KeepsSound : (client : ℕ) → KeepsSound (client_close env fuel client)
  unfolding client_close
  client_close-KeepsSound client r w w' v e =
      if-KeepsSound (contains client w.client_list) _ _
        (>>=-KeepsSound (load_client client) _ (load_client-KeepsSound client) (λ c.
          >>=-KeepsSound (when (is_connecting1 c.state || is_connecting2 c.state) (closing c)) _
            (if-KeepsSound (is_connecting1 c.state || is_connecting2 c.state) (closing c) skip
              (>>=-KeepsSound (store_client client (record c { state = ClientState.dead })) _
                (store_dead-KeepsSound client c)
                (λ _. device_abort_connect-KeepsSound c.connect_device client))
              skip-KeepsSound)
            (λ _.
              >>=-KeepsSound delist _ (untouched-KeepsSound delist (λ r w w' e. ground arith))
                (λ _. free_client-KeepsSound client))))
        skip-KeepsSound r w w' v e
    where
      closing : MuxClient → M (Unit {0})
      closing c = do
        store_client client (record c { state = ClientState.dead })
        device_abort_connect env fuel c.connect_device client

      delist : M (Unit {0})
      delist = modify (λ w. record w { client_list = env.collection_remove w.client_list client })

  pub connection_teardown-KeepsSound : (conn : ℕ) → KeepsSound (connection_teardown env fuel conn)
  unfolding connection_teardown
  connection_teardown-KeepsSound conn =
      teardown_with-KeepsSound (client_close env fuel) conn client_close-KeepsSound

-- ===== src/Device/Timeout.antt =====
-- Delayed acknowledgements: `device_get_timeout` and `device_check_timeouts` of src/device.c.
pub mod Oldest
use usbmuxd_win_mce.Base.{
  ℕ, ◌+◌, ◌-◌, Bool, true, false, ◌&&◌, Option, none, some, List, [], ◌∷◌, ℤ, contains, ltb,
  if◌then◌else◌, sub64,
}
use usbmuxd_win_mce.State.{World, MuxDevice, MuxConnection, MuxConnState}
use usbmuxd_win_mce.State.Monad.{M, pure, ◌>>=◌, ◌>>◌, skip, get, deref, load_device, load_conn}
use usbmuxd_win_mce.Env.{Env}
use usbmuxd_win_mce.Device.Packet.{mstime64}
use usbmuxd_win_mce.Device.Lookup.{load_conns}
use usbmuxd_win_mce.Device.Transfer.{send_tcp_ack}
use usbmuxd_win_mce.Device.Info.{is_active}

abbrev pub ack_timeout : ℕ
ack_timeout = 30

abbrev pub is_conn_connected : MuxConnState → Bool
is_conn_connected MuxConnState.connected = true
is_conn_connected _ = false

abbrev pub awaits_ack : MuxConnection → Bool
awaits_ack c = is_conn_connected c.state && c.ack_pending

-- `oldest`, with `none` for the value (uint64_t)-1.
unfoldable pub earlier : Option ℕ → MuxConnection → Option ℕ
earlier none c = if awaits_ack c then some c.last_ack_time else none
earlier (some t) c = if awaits_ack c && ltb c.last_ack_time t then some c.last_ack_time else some t

unfoldable pub oldest_in : Option ℕ → List MuxConnection → Option ℕ
oldest_in acc [] = acc
oldest_in acc (c ∷ cs) = oldest_in (earlier acc c) cs

unfoldable pub oldest_of : Option ℕ → List ℕ → M (Option ℕ)
oldest_of acc [] = pure acc
oldest_of acc (p ∷ ps) = do
  d ← load_device p
  if is_active d.state
      then (do l ← deref d.connections; cs ← load_conns l; oldest_of (oldest_in acc cs) ps)
      else oldest_of acc ps

-- The milliseconds until the oldest acknowledgement is due.
unfoldable pub timeout_from : Option ℕ → ℕ → ℕ
timeout_from none ct = 100000
timeout_from (some oldest) ct =
    if ltb ack_timeout (sub64 ct oldest) then 0 else ack_timeout - sub64 ct oldest

module _ (env : Env) where
  unfoldable pub device_get_timeout : M ℕ
  unfolding oldest_of timeout_from
  device_get_timeout = do
    l ← get (λ w. w.device_list)
    oldest ← oldest_of none l
    ct ← mstime64 env
    pure (timeout_from oldest ct)

  module _ (fuel : ℕ) where
    abbrev is_overdue : ℕ → MuxConnection → Bool
    is_overdue ct c = awaits_ack c && ltb ack_timeout (sub64 ct c.last_ack_time)

    -- FOREACH over the connections of a device; one that is gone by its turn is passed over.
    unfoldable pub ack_each : ℕ → ℕ → List ℕ → M (Unit {0})
    ack_each ct dev [] = skip
    ack_each ct dev (p ∷ ps) = do
      d ← load_device dev
      l ← deref d.connections
      if contains p l
          then (do
            c ← load_conn p
            if is_overdue ct c then (do _ ← send_tcp_ack env fuel p; skip) else skip)
          else skip
      ack_each ct dev ps

    unfoldable pub check_each : ℕ → List ℕ → M (Unit {0})
    unfolding ack_each
    check_each ct [] = skip
    check_each ct (p ∷ ps) = do
      d ← load_device p
      if is_active d.state then (do l ← deref d.connections; ack_each ct p l) else skip
      check_each ct ps

    unfoldable pub device_check_timeouts : M (Unit {0})
    unfolding check_each
    device_check_timeouts = do ct ← mstime64 env; l ← get (λ w. w.device_list); check_each ct l

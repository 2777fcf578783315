-- ===== src/Device/Lookup.antt =====
-- Searches in the lists of devices and connections (src/device.c).
use usbmuxd_win_mce.Base.{ℕ, Bool, false, Option, none, some, List, [], ◌∷◌, ◌==◌, if◌then◌else◌}
use usbmuxd_win_mce.State.{MuxDevice, MuxConnection}
use usbmuxd_win_mce.State.Monad.{M, pure, ◌>>=◌, deref, get, load_device, load_conn}

-- FOREACH over devices, up to the first that passes the test.
unfoldable pub first_device : (MuxDevice → Bool) → List ℕ → M (Option ℕ)
first_device test [] = pure none
first_device test (p ∷ ps) = do
  d ← load_device p
  if test d then pure (some p) else first_device test ps

-- FOREACH over connections.
unfoldable pub first_conn : (MuxConnection → Bool) → List ℕ → M (Option ℕ)
first_conn test [] = pure none
first_conn test (p ∷ ps) = do c ← load_conn p; if test c then pure (some p) else first_conn test ps

abbrev pub is_client : ℕ → Option ℕ → Bool
is_client p none = false
is_client p (some q) = q == p

unfoldable pub get_mux_device_for_id : ℕ → M (Option ℕ)
unfolding first_device
get_mux_device_for_id device_id = do
  l ← get (λ w. w.device_list)
  first_device (λ d. d.id == device_id) l

unfoldable pub get_mux_connection : ℕ → ℕ → M (Option ℕ)
unfolding first_device first_conn
get_mux_connection device_id client = do
  l ← get (λ w. w.device_list)
  found ← first_device (λ d. d.id == device_id) l
  elim found [
    | none ↦ pure none
    | some p ↦ do
      d ← load_device p
      cs ← deref d.connections
      first_conn (λ c. is_client client c.client) cs
  ]

-- The fields of all objects of a list.
unfoldable pub load_devices : List ℕ → M (List MuxDevice)
load_devices [] = pure []
load_devices (p ∷ ps) = do d ← load_device p; ds ← load_devices ps; pure (d ∷ ds)

unfoldable pub load_conns : List ℕ → M (List MuxConnection)
load_conns [] = pure []
load_conns (p ∷ ps) = do c ← load_conn p; cs ← load_conns ps; pure (c ∷ cs)

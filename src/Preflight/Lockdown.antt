-- ===== src/Preflight/Lockdown.antt =====
-- What a worker does with lockdownd, and what it does when the device notifies it (src/preflight.c).
use usbmuxd_win_mce.Base.{
  ℕ, ◌+◌, ◌-◌, Bool, true, false, List, [], ◌∷◌, ◌==◌, if◌then◌else◌, codes, bytes_eq,
}
use usbmuxd_win_mce.State.{LockdownRequest, pairs, tells_buid}
use usbmuxd_win_mce.State.Monad.{
  M, pure, ◌>>=◌, ◌>>◌, skip, faults, get, modify_preflight, tick, load_callback, store_callback,
}
use usbmuxd_win_mce.Env.{Env}
use usbmuxd_win_mce.Env.Lockdown.{LockdownError, success}
use usbmuxd_win_mce.Conf.Records.{config_get_system_buid}

abbrev pub is_success : LockdownError → Bool
is_success success = true
is_success _ = false

-- A request of lockdownd, for the record.
abbrev pub request : LockdownRequest → M (Unit {0})
request r = modify_preflight (λ s. record s { requests = r ∷ s.requests })

-- A client that could not be made is NULL; one that was freed cannot be freed again.
unfoldable pub lockdownd_client_free : M (Unit {0})
lockdownd_client_free = do
  n ← get (λ w. w.preflight.lockdowns)
  if n == 0 then faults else modify_preflight (λ s. record s { lockdowns = n - 1 })

abbrev pub finish : ℕ → M (Unit {0})
finish cb = do c ← load_callback cb; store_callback cb (record c { is_finished = true })

module _ (env : Env) where
  -- Is there a client?
  unfoldable pub lockdownd_client_new : M Bool
  lockdownd_client_new = do
    call ← tick
    if is_success (env.lockdown.client_new call)
        then (do modify_preflight (λ s. record s { lockdowns = s.lockdowns + 1 }); pure true)
        else pure false

  unfoldable pub lockdownd_pair : M LockdownError
  lockdownd_pair = do call ← tick; request pairs; pure (env.lockdown.pair call)

  unfoldable pub lockdownd_set_untrusted_host_buid : M (Unit {0})
  lockdownd_set_untrusted_host_buid = do
    system_buid ← config_get_system_buid env
    request (tells_buid system_buid)

  -- The user trusts this computer.
  unfoldable pub on_request_pair : ℕ → M (Unit {0})
  on_request_pair cb = do
    opened ← lockdownd_client_new
    if opened then (do _ ← lockdownd_pair; lockdownd_client_free; finish cb) else finish cb

  unfoldable pub on_request_host_buid : M (Unit {0})
  on_request_host_buid = do
    opened ← lockdownd_client_new
    if opened then (do lockdownd_set_untrusted_host_buid; lockdownd_client_free) else skip

  -- The empty notification says that the connection to the proxy is gone.
  unfoldable pub np_callback : List ℕ → ℕ → M (Unit {0})
  unfolding on_request_pair on_request_host_buid
  np_callback [] cb = do c ← load_callback cb; store_callback cb (record c { np = false })
  np_callback (c ∷ cs) cb =
      if bytes_eq (c ∷ cs) (codes "com.apple.mobile.lockdown.request_pair")
      then on_request_pair cb
      else if bytes_eq (c ∷ cs) (codes "com.apple.mobile.lockdown.request_host_buid")
      then on_request_host_buid
      else skip

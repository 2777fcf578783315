-- ===== src/Env/Lockdown.antt =====
-- What src/preflight.c takes from libimobiledevice: how lockdownd on a device answers. Each function
-- takes the number of the call.
use usbmuxd_win_mce.Base.{ℕ, Bool, List, Option, String}

-- The values of `lockdownd_error_t` that the program tells apart.
pub data LockdownError : Type 0 where
  success invalid_host_id ssl_error password_protected other : LockdownError

pub record LockdownLib : Type 0 where
  -- lockdownd_client_new
  pub client_new : ℕ → LockdownError
  -- lockdownd_query_type: the type, where one was given
  pub query_type : ℕ → Option (List ℕ)
  -- lockdownd_start_session with a host id
  pub start_session : ℕ → Option (List ℕ) → LockdownError
  -- lockdownd_get_value of a key: `none` for an error, and else the node, where there is one
  pub get_value : ℕ → String → Option (Option ℕ)
  pub pair : ℕ → LockdownError
  pub validate_pair : ℕ → LockdownError
  -- lockdownd_start_service of the insecure notification proxy
  pub start_service : ℕ → LockdownError
  -- Does np_client_new give a client?
  pub np_client_new : ℕ → Bool

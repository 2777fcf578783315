-- ===== src/State/Monad.antt =====
-- Programs over the state: they return a result and the new state, or fault (a use of freed or
-- absent memory, which C leaves undefined).
pub mod Runs
pub mod Preserves
use usbmuxd_win_mce.Base.{ℕ, ◌+◌, Bool, true, false, Option, none, some, List, ◌==◌, if◌then◌else◌}
use usbmuxd_win_mce.State.{
  World, Heap, MuxDevice, MuxConnection, MuxClient, UsbDevice, ModeContext, UsbGlobals, CbData,
  PreflightState,
}

pub data Outcome (A : Type 0) : Type 0 where
  done : A → World → Outcome A
  fault : Outcome A

abbrev pub M : Type 0 → Type 0
M A = World → Outcome A

abbrev pub pure : {A : Type 0} → A → M A
pure a w = done a w

infixl 5 ◌>>=◌ ◌>>◌
abbrev pub ◌>>=◌ : {A B : Type 0} → M A → (A → M B) → M B
◌>>=◌ m f w = elim (m w) [ done a w' ↦ f a w' | fault ↦ fault ]

abbrev pub ◌>>◌ : {B : Type 0} → M (Unit {0}) → M B → M B
m >> k = m >>= λ _. k

abbrev pub skip : M (Unit {0})
skip = pure tt

abbrev pub faults : {A : Type 0} → M A
faults w = fault

-- A value that must be there: the C code dereferences it.
abbrev pub deref : {A : Type 0} → Option A → M A
deref none w = fault
deref (some a) w = done a w

abbrev pub get : {A : Type 0} → (World → A) → M A
get f w = done (f w) w

abbrev pub modify : (World → World) → M (Unit {0})
modify f w = done tt (f w)

abbrev pub when : Bool → M (Unit {0}) → M (Unit {0})
when b m = if b then m else skip

-- The first program where there is nothing, the second with what there is: a test for NULL or for an
-- error.
abbrev pub maybe : {A B : Type 0} → Option A → M B → (A → M B) → M B
maybe none m f = m
maybe (some a) m f = f a

abbrev pub put : {A : Type 0} → Heap A → ℕ → Option A → Heap A
put h p v q = if p == q then v else h q

abbrev pub load_device : ℕ → M MuxDevice
load_device p w = deref (w.devices p) w

abbrev pub store_device : ℕ → MuxDevice → M (Unit {0})
store_device p d w = done tt (record w { devices = put w.devices p (some d) })

abbrev pub load_conn : ℕ → M MuxConnection
load_conn p w = deref (w.conns p) w

abbrev pub store_conn : ℕ → MuxConnection → M (Unit {0})
store_conn p c w = done tt (record w { conns = put w.conns p (some c) })

abbrev pub load_client : ℕ → M MuxClient
load_client p w = deref (w.clients p) w

abbrev pub store_client : ℕ → MuxClient → M (Unit {0})
store_client p c w = done tt (record w { clients = put w.clients p (some c) })

abbrev pub load_usb : ℕ → M UsbDevice
load_usb p w = deref (w.usb p) w

abbrev pub store_usb : ℕ → UsbDevice → M (Unit {0})
store_usb p u w = done tt (record w { usb = put w.usb p (some u) })

abbrev pub load_context : ℕ → M ModeContext
load_context p w = deref (w.contexts p) w

abbrev pub store_context : ℕ → ModeContext → M (Unit {0})
store_context p c w = done tt (record w { contexts = put w.contexts p (some c) })

abbrev pub free_usb : ℕ → M (Unit {0})
free_usb p w = done tt (record w { usb = put w.usb p none })

abbrev pub free_context : ℕ → M (Unit {0})
free_context p w = done tt (record w { contexts = put w.contexts p none })

abbrev pub free_device : ℕ → M (Unit {0})
free_device p w = done tt (record w { devices = put w.devices p none })

abbrev pub free_conn : ℕ → M (Unit {0})
free_conn p w = done tt (record w { conns = put w.conns p none })

abbrev pub free_client : ℕ → M (Unit {0})
free_client p w = done tt (record w { clients = put w.clients p none })

-- A change of the globals of src/usb.c and src/main.c.
abbrev pub modify_bus : (UsbGlobals → UsbGlobals) → M (Unit {0})
modify_bus f w = done tt (record w { bus = f w.bus })

-- A change of what the workers of src/preflight.c keep.
abbrev pub modify_preflight : (PreflightState → PreflightState) → M (Unit {0})
modify_preflight f w = done tt (record w { preflight = f w.preflight })

abbrev pub load_callback : ℕ → M CbData
load_callback p w = deref (w.preflight.callbacks p) w

abbrev pub store_callback : ℕ → CbData → M (Unit {0})
store_callback p c = modify_preflight (λ s. record s { callbacks = put s.callbacks p (some c) })

abbrev pub free_callback : ℕ → M (Unit {0})
free_callback p = modify_preflight (λ s. record s { callbacks = put s.callbacks p none })

-- malloc, which the program does not check for failure: a fresh address.
abbrev pub alloc : M ℕ
alloc w = done w.next_ptr (record w { next_ptr = w.next_ptr + 1 })

-- The number of this call to the environment.
abbrev pub tick : M ℕ
tick w = done w.calls (record w { calls = w.calls + 1 })

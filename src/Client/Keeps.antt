-- ===== src/Client/Keeps.antt =====
-- Rules by which an operation keeps the buffers of all clients, for `search`: one for each way to
-- build an operation, and one for each access to the state that leaves the clients alone.
pub mod Leaves
pub mod Serves
use usbmuxd_win_mce.Base.{ℕ, Bool, Option, none, some, arith, if◌then◌else◌}
use usbmuxd_win_mce.State.{
  World, MuxDevice, MuxConnection, UsbDevice, UsbGlobals, ModeContext, CbData,
}
use usbmuxd_win_mce.State.Monad.{
  M, pure, ◌>>=◌, ◌>>◌, faults, maybe, deref, get, modify_bus, tick, alloc, load_device,
  store_device, load_conn, store_conn, load_client, load_usb, store_usb, load_context,
  store_context, free_device, free_usb, free_context, load_callback, store_callback,
}
use usbmuxd_win_mce.Client.Socket.Sound.{
  KeepsSound, >>=-KeepsSound, untouched-KeepsSound, if-KeepsSound,
}

-- The operation keeps every client that is not being closed sound.
pub record Keeps {A : Type 0} (m : M A) : Type 0 where
  pub at : KeepsSound m

module _ {A B : Type 0} where
  pub Keeps-bind : (m : M A) (f : A → M B) → Keeps m → ((a : A) → Keeps (f a)) → Keeps (m >>= f)
  Keeps-bind m f h k = record { at = >>=-KeepsSound m f h.at (λ a. (k a).at) }

pub Keeps-then : {B : Type 0} (m : M (Unit {0})) (k : M B) → Keeps m → Keeps k → Keeps (m >> k)
Keeps-then m k h l = record { at = >>=-KeepsSound m (λ _. k) h.at (λ _. l.at) }

module _ {A : Type 0} where
  pub Keeps-pure : (a : A) → Keeps (pure a)
  Keeps-pure a = record { at = untouched-KeepsSound (pure a) (λ r w w' e. ground arith) }

  pub Keeps-faults : Keeps (faults {A = A})
  Keeps-faults = record { at = λ r w w' v e. absurd (ground arith) }

  pub Keeps-deref : (o : Option A) → Keeps (deref o)
  Keeps-deref none = record { at = λ r w w' v e. absurd (ground arith) }
  Keeps-deref (some a) = record {
    at = untouched-KeepsSound (deref (some a)) (λ r w w' e. ground arith);
  }

  pub Keeps-get : (f : World → A) → Keeps (get f)
  Keeps-get f = record { at = untouched-KeepsSound (get f) (λ r w w' e. ground arith) }

  pub Keeps-if : (b : Bool) (m n : M A) → Keeps m → Keeps n → Keeps (if b then m else n)
  Keeps-if b m n h k = record { at = if-KeepsSound b m n h.at k.at }

  pub Keeps-maybe :
      {C : Type 0} (o : Option C) (m : M A) (f : C → M A)
      → Keeps m
      → ((c : C) → Keeps (f c))
      → Keeps (maybe o m f)
  Keeps-maybe none m f h k = h
  Keeps-maybe (some c) m f h k = k c

pub Keeps-tick : Keeps tick
Keeps-tick = record { at = untouched-KeepsSound tick (λ r w w' e. ground arith) }

pub Keeps-alloc : Keeps alloc
Keeps-alloc = record { at = untouched-KeepsSound alloc (λ r w w' e. ground arith) }

pub Keeps-modify_bus : (f : UsbGlobals → UsbGlobals) → Keeps (modify_bus f)
Keeps-modify_bus f = record { at = untouched-KeepsSound (modify_bus f) (λ r w w' e. ground arith) }

module _ (p : ℕ) where
  pub Keeps-load_usb : Keeps (load_usb p)
  Keeps-load_usb = record { at = untouched-KeepsSound (load_usb p) (λ r w w' e. ground arith) }

  pub Keeps-store_usb : (u : UsbDevice) → Keeps (store_usb p u)
  Keeps-store_usb u = record {
    at = untouched-KeepsSound (store_usb p u) (λ r w w' e. ground arith);
  }

  pub Keeps-free_usb : Keeps (free_usb p)
  Keeps-free_usb = record { at = untouched-KeepsSound (free_usb p) (λ r w w' e. ground arith) }

  pub Keeps-load_context : Keeps (load_context p)
  Keeps-load_context = record {
    at = untouched-KeepsSound (load_context p) (λ r w w' e. ground arith);
  }

  pub Keeps-store_context : (c : ModeContext) → Keeps (store_context p c)
  Keeps-store_context c = record {
    at = untouched-KeepsSound (store_context p c) (λ r w w' e. ground arith);
  }

  pub Keeps-free_context : Keeps (free_context p)
  Keeps-free_context = record {
    at = untouched-KeepsSound (free_context p) (λ r w w' e. ground arith);
  }

  pub Keeps-load_device : Keeps (load_device p)
  Keeps-load_device = record {
    at = untouched-KeepsSound (load_device p) (λ r w w' e. ground arith);
  }

  pub Keeps-store_device : (d : MuxDevice) → Keeps (store_device p d)
  Keeps-store_device d = record {
    at = untouched-KeepsSound (store_device p d) (λ r w w' e. ground arith);
  }

  pub Keeps-free_device : Keeps (free_device p)
  Keeps-free_device = record {
    at = untouched-KeepsSound (free_device p) (λ r w w' e. ground arith);
  }

  pub Keeps-load_conn : Keeps (load_conn p)
  Keeps-load_conn = record { at = untouched-KeepsSound (load_conn p) (λ r w w' e. ground arith) }

  pub Keeps-store_conn : (c : MuxConnection) → Keeps (store_conn p c)
  Keeps-store_conn c = record {
    at = untouched-KeepsSound (store_conn p c) (λ r w w' e. ground arith);
  }

  pub Keeps-load_callback : Keeps (load_callback p)
  Keeps-load_callback = record {
    at = untouched-KeepsSound (load_callback p) (λ r w w' e. ground arith);
  }

  pub Keeps-store_callback : (c : CbData) → Keeps (store_callback p c)
  Keeps-store_callback c = record {
    at = untouched-KeepsSound (store_callback p c) (λ r w w' e. ground arith);
  }

  pub Keeps-load_client : Keeps (load_client p)
  Keeps-load_client = record {
    at = untouched-KeepsSound (load_client p) (λ r w w' e. ground arith);
  }

pub ruleset keeps_rules = (
  Keeps-bind, Keeps-then, Keeps-pure, Keeps-faults, Keeps-deref, Keeps-get, Keeps-if, Keeps-maybe,
  Keeps-tick, Keeps-alloc, Keeps-modify_bus, Keeps-load_usb, Keeps-store_usb, Keeps-free_usb,
  Keeps-load_context, Keeps-store_context, Keeps-free_context, Keeps-load_device,
  Keeps-store_device, Keeps-free_device, Keeps-load_conn, Keeps-store_conn, Keeps-load_client,
  Keeps-load_callback, Keeps-store_callback,
)

-- ===== src/Client/Keeps/Leaves.antt =====
-- Rules by which an operation leaves the clients alone, for `search`.
use usbmuxd_win_mce.Base.{ℕ, ◌≡◌, Bool, Option, none, some, arith, if◌then◌else◌}
use usbmuxd_win_mce.State.{World, MuxClient, MuxDevice, MuxConnection, Heap}
use usbmuxd_win_mce.State.Monad.{
  M, pure, ◌>>=◌, ◌>>◌, maybe, deref, get, modify, tick, alloc, load_device, store_device,
  load_conn, store_conn, load_client, load_usb,
}
use usbmuxd_win_mce.Client.Socket.Sound.{untouched-KeepsSound}
use usbmuxd_win_mce.Device.Teardown.Untouched.{
  Untouched, >>=-Untouched, if-Untouched, pure-Untouched, deref-Untouched,
}
use usbmuxd_win_mce.Client.Keeps.{Keeps}

-- The clients are afterwards as they were before.
pub record Leaves {A : Type 0} (m : M A) : Type 0 where
  pub at : Untouched m

pub Leaves-Keeps : {A : Type 0} (m : M A) → Leaves m → Keeps m
Leaves-Keeps m h = record { at = untouched-KeepsSound m h.at }

module _ {A B : Type 0} where
  pub Leaves-bind : (m : M A) (f : A → M B) → Leaves m → ((a : A) → Leaves (f a)) → Leaves (m >>= f)
  Leaves-bind m f h k = record { at = >>=-Untouched m f h.at (λ a. (k a).at) }

pub Leaves-then : {B : Type 0} (m : M (Unit {0})) (k : M B) → Leaves m → Leaves k → Leaves (m >> k)
Leaves-then m k h l = record { at = >>=-Untouched m (λ _. k) h.at (λ _. l.at) }

module _ {A : Type 0} where
  pub Leaves-pure : (a : A) → Leaves (pure a)
  Leaves-pure a = record { at = pure-Untouched a }

  pub Leaves-deref : (o : Option A) → Leaves (deref o)
  Leaves-deref o = record { at = deref-Untouched o }

  pub Leaves-get : (f : World → A) → Leaves (get f)
  Leaves-get f = record { at = λ r w w' e. ground arith }

  pub Leaves-if : (b : Bool) (m n : M A) → Leaves m → Leaves n → Leaves (if b then m else n)
  Leaves-if b m n h k = record { at = if-Untouched b m n h.at k.at }

  pub Leaves-maybe :
      {C : Type 0} (o : Option C) (m : M A) (f : C → M A)
      → Leaves m
      → ((c : C) → Leaves (f c))
      → Leaves (maybe o m f)
  Leaves-maybe none m f h k = h
  Leaves-maybe (some c) m f h k = k c

-- Any change of the state but of its clients.
pub Leaves-modify :
    (f : World → World) → ((w : World) → (f w).clients ≡ w.clients) → Leaves (modify f)
Leaves-modify f same = record { at = λ r w w' e. ground (arith, same w) }

-- So that `search` sees such a change.
pub same_clients : (h : Heap MuxClient) → h ≡ h
same_clients h = cc

pub Leaves-tick : Leaves tick
Leaves-tick = record { at = λ r w w' e. ground arith }

pub Leaves-alloc : Leaves alloc
Leaves-alloc = record { at = λ r w w' e. ground arith }

module _ (p : ℕ) where
  pub Leaves-load_device : Leaves (load_device p)
  Leaves-load_device = record { at = λ r w w' e. ground arith }

  pub Leaves-store_device : (d : MuxDevice) → Leaves (store_device p d)
  Leaves-store_device d = record { at = λ r w w' e. ground arith }

  pub Leaves-load_conn : Leaves (load_conn p)
  Leaves-load_conn = record { at = λ r w w' e. ground arith }

  pub Leaves-store_conn : (c : MuxConnection) → Leaves (store_conn p c)
  Leaves-store_conn c = record { at = λ r w w' e. ground arith }

  pub Leaves-load_client : Leaves (load_client p)
  Leaves-load_client = record { at = λ r w w' e. ground arith }

  pub Leaves-load_usb : Leaves (load_usb p)
  Leaves-load_usb = record { at = λ r w w' e. ground arith }

pub ruleset leaves_rules = (
  Leaves-bind, Leaves-then, Leaves-pure, Leaves-deref, Leaves-get, Leaves-if, Leaves-maybe,
  Leaves-modify, same_clients, Leaves-tick, Leaves-alloc, Leaves-load_device, Leaves-store_device,
  Leaves-load_conn, Leaves-store_conn, Leaves-load_client, Leaves-load_usb,
)

-- ===== src/State/Monad/Preserves.antt =====
-- Invariants of programs over the state, with one rule for each way to build a program, for `search`.
use usbmuxd_win_mce.Base.{
  ℕ, ◌+◌, ◌≡◌, subst, Bool, true, false, Option, none, some, arith, if◌then◌else◌,
}
use usbmuxd_win_mce.State.{World}
use usbmuxd_win_mce.State.Monad.{
  M, done, pure, ◌>>=◌, ◌>>◌, faults, maybe, deref, get, modify, tick, load_device, load_client,
  load_callback,
}
use usbmuxd_win_mce.State.Monad.Runs.{>>=-eq-done}

-- Wherever the program ends, `P` holds if it held before.
pub record Preserves (P : World → Type 0) {A : Type 0} (m : M A) : Type 0 where
  pub at : (r : A) (w w' : World) → m w ≡ done r w' → P w → P w'

module _ {P : World → Type 0} where
  pub Preserves-bind :
      {A B : Type 0} (m : M A) (f : A → M B)
      → Preserves P m
      → ((a : A) → Preserves P (f a))
      → Preserves P (m >>= f)
  Preserves-bind m f h k = record {
    at = λ r w w' e p.
        let (a, v, e₁, e₂) = >>=-eq-done m f e in (k a).at r v w' e₂ (h.at a w v e₁ p);
  }

  pub Preserves-then :
      {B : Type 0} (m : M (Unit {0})) (k : M B)
      → Preserves P m
      → Preserves P k
      → Preserves P (m >> k)
  Preserves-then m k h l = Preserves-bind m (λ _. k) h (λ _. l)

  -- What does not change the state.
  pub Preserves-still :
      {A : Type 0} (m : M A) → ((r : A) (w w' : World) → m w ≡ done r w' → w ≡ w') → Preserves P m
  Preserves-still m h = record { at = λ r w w' e p. subst P (h r w w' e) p }

  pub Preserves-modify :
      (f : World → World) → ((w : World) → P w → P (f w)) → Preserves P (modify f)
  Preserves-modify f h = record { at = λ r w w' e p. subst P (ground arith) (h w p) }

  pub Preserves-tick : ((w : World) → P w → P (record w { calls = w.calls + 1 })) → Preserves P tick
  Preserves-tick h = record { at = λ r w w' e p. subst P (ground arith) (h w p) }

  module _ {A : Type 0} where
    pub Preserves-pure : (a : A) → Preserves P (pure a)
    Preserves-pure a = Preserves-still (pure a) (λ r w w' e. ground arith)

    pub Preserves-faults : Preserves P (faults {A = A})
    Preserves-faults = record { at = λ r w w' e p. absurd (ground arith) }

    pub Preserves-deref : (o : Option A) → Preserves P (deref o)
    Preserves-deref none = record { at = λ r w w' e p. absurd (ground arith) }
    Preserves-deref (some a) = Preserves-still (deref (some a)) (λ r w w' e. ground arith)

    pub Preserves-get : (f : World → A) → Preserves P (get f)
    Preserves-get f = Preserves-still (get f) (λ r w w' e. ground arith)

    pub Preserves-if :
        (b : Bool) (m n : M A) → Preserves P m → Preserves P n → Preserves P (if b then m else n)
    Preserves-if true m n h k = h
    Preserves-if false m n h k = k

    pub Preserves-maybe :
        {C : Type 0} (o : Option C) (m : M A) (f : C → M A)
        → Preserves P m
        → ((c : C) → Preserves P (f c))
        → Preserves P (maybe o m f)
    Preserves-maybe none m f h k = h
    Preserves-maybe (some c) m f h k = k c

  module _ (p : ℕ) where
    pub Preserves-load_device : Preserves P (load_device p)
    Preserves-load_device = Preserves-still (load_device p) (λ r w w' e. ground arith)

    pub Preserves-load_client : Preserves P (load_client p)
    Preserves-load_client = Preserves-still (load_client p) (λ r w w' e. ground arith)

    pub Preserves-load_callback : Preserves P (load_callback p)
    Preserves-load_callback = Preserves-still (load_callback p) (λ r w w' e. ground arith)

pub ruleset preserves_rules = (
  Preserves-bind, Preserves-then, Preserves-pure, Preserves-faults, Preserves-deref, Preserves-get,
  Preserves-if, Preserves-maybe, Preserves-load_device, Preserves-load_client,
  Preserves-load_callback,
)

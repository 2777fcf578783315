-- ===== src/State/Monad/Runs.antt =====
-- How a program over the state came to its outcome.
use usbmuxd_win_mce.Base.{◌≡◌, ◌⊎◌, inl, inr, refl}
use usbmuxd_win_mce.State.{World}
use usbmuxd_win_mce.State.Monad.{M, Outcome, done, fault, ◌>>=◌, ◌>>◌}

pub Outcome-cases :
    {A : Type 0} (o : Outcome A) → (o ≡ fault) ⊎ ((a : A) × (w : World) × (o ≡ done a w))
Outcome-cases fault = inl refl
Outcome-cases (done a w) = inr (a, w, refl)

-- A step followed by one that faults wherever the first may end.
fault_after_outcome :
    {A : Type 0} (k : M A) (o : Outcome (Unit {0}))
    → ((w' : World) → o ≡ done tt w' → k w' ≡ fault)
    → elim o as (λ _. Outcome A) [ done a w' ↦ k w' | fault ↦ fault ] ≡ fault
fault_after_outcome k fault h = refl
fault_after_outcome k (done u w') h = h w' refl

pub fault_after :
    {A : Type 0} (m : M (Unit {0})) (k : M A) (w : World)
    → ((w' : World) → m w ≡ done tt w' → k w' ≡ fault)
    → (m >> k) w ≡ fault
fault_after m k w h = fault_after_outcome k (m w) h

done_after_outcome :
    {A B : Type 0} (f : A → M B) (o : Outcome A) {b : B} {w'' : World}
    → elim o as (λ _. Outcome B) [ done a w' ↦ f a w' | fault ↦ fault ] ≡ done b w''
    → (a : A) × (w' : World) × (o ≡ done a w') × (f a w' ≡ done b w'')
done_after_outcome f fault h = cc
done_after_outcome f (done a w') h = (a, w', refl, h)

pub >>=-eq-done :
    {A B : Type 0} (m : M A) (f : A → M B) {w w'' : World} {b : B}
    → (m >>= f) w ≡ done b w''
    → (a : A) × (w' : World) × (m w ≡ done a w') × (f a w' ≡ done b w'')
>>=-eq-done m f {w} h = done_after_outcome f (m w) h

pub >>-eq-done :
    {B : Type 0} (m : M (Unit {0})) (k : M B) {w w'' : World} {b : B}
    → (m >> k) w ≡ done b w''
    → (w' : World) × (m w ≡ done tt w') × (k w' ≡ done b w'')
>>-eq-done m k {w} h = let (_, w', p, q) = done_after_outcome (λ _. k) (m w) h in (w', p, q)

fault_after_any_outcome :
    {A B : Type 0} (f : A → M B) (o : Outcome A)
    → ((a : A) (w' : World) → o ≡ done a w' → f a w' ≡ fault)
    → elim o as (λ _. Outcome B) [ done a w' ↦ f a w' | fault ↦ fault ] ≡ fault
fault_after_any_outcome f fault h = refl
fault_after_any_outcome f (done a w') h = h a w' refl

pub fault_after_any :
    {A B : Type 0} (m : M A) (f : A → M B) (w : World)
    → ((a : A) (w' : World) → m w ≡ done a w' → f a w' ≡ fault)
    → (m >>= f) w ≡ fault
fault_after_any m f w h = fault_after_any_outcome f (m w) h

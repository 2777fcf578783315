-- ===== src/Preflight/Balanced.antt =====
-- The clients of lockdownd that a worker opens and frees (src/preflight.c).
use usbmuxd_win_mce.Base.{
  ℕ, ◌+◌, ◌≡◌, refl, ◌∙◌, Bool, true, false, Option, none, some, arith, if◌then◌else◌,
}
use usbmuxd_win_mce.State.{World, PreflightState}
use usbmuxd_win_mce.State.Monad.{
  M, done, pure, ◌>>=◌, ◌>>◌, faults, maybe, get, tick, modify_preflight, load_callback,
}
use usbmuxd_win_mce.State.Monad.Runs.{>>=-eq-done, >>-eq-done}
use usbmuxd_win_mce.Env.{Env}
use usbmuxd_win_mce.Preflight.Quiet.{Quiet}
use usbmuxd_win_mce.Preflight.Lockdown.{lockdownd_client_new, lockdownd_client_free}

abbrev pub bit : Bool → ℕ
bit true = 1
bit false = 0

-- The program has a client before it, or none, and its result tells whether it leaves with one: the
-- clients of others are as many as before.
pub record Balanced (before : Bool) {A : Type 0} (after : A → Bool) (m : M A) : Type 0 where
  pub at :
      (r : A) (w w' : World)
      → m w ≡ done r w'
      → w'.preflight.lockdowns + bit before ≡ w.preflight.lockdowns + bit (after r)

-- No client is opened or freed.
pub record Steady {A : Type 0} (m : M A) : Type 0 where
  pub at : (r : A) (w w' : World) → m w ≡ done r w' → w'.preflight.lockdowns ≡ w.preflight.lockdowns

pub Quiet-Steady : {A : Type 0} (m : M A) → Quiet m → Steady m
Quiet-Steady m h = record {
  at = λ r w w' e.
      let same = ((h w.preflight).at r w w' e (record { same = refl })).same in ground arith;
}

pub Steady-modify :
    (f : PreflightState → PreflightState)
    → ((s : PreflightState) → (f s).lockdowns ≡ s.lockdowns)
    → Steady (modify_preflight f)
Steady-modify f h = record { at = λ r w w' e. ground (arith, h w.preflight) }

-- So that `search` sees such a change.
pub same_count : (n : ℕ) → n ≡ n
same_count n = refl

pub Steady-load_callback : (p : ℕ) → Steady (load_callback p)
Steady-load_callback p = record { at = λ r w w' e. ground arith }

pub Steady-tick : Steady tick
Steady-tick = record { at = λ r w w' e. ground arith }

module _ {B : Type 0} where
  pub Steady-bind :
      {A : Type 0} (m : M A) (f : A → M B) → Steady m → ((a : A) → Steady (f a)) → Steady (m >>= f)
  Steady-bind m f h k = record {
    at = λ r w w' e.
        let (a, v, e₁, e₂) = >>=-eq-done m f {w = w} {w'' = w'} {b = r} e in
        (k a).at r v w' e₂ ∙ h.at a w v e₁;
  }

  pub Steady-then : (m : M (Unit {0})) (k : M B) → Steady m → Steady k → Steady (m >> k)
  Steady-then m k h l = Steady-bind m (λ _. k) h (λ _. l)

  pub Steady-pure : (b : B) → Steady (pure b)
  Steady-pure b = record { at = λ r w w' e. ground arith }

  pub Steady-get : (f : World → B) → Steady (get f)
  Steady-get f = record { at = λ r w w' e. ground arith }

  pub Steady-faults : Steady (faults {A = B})
  Steady-faults = record { at = λ r w w' e. absurd (ground arith) }

  pub Steady-if : (b : Bool) (m n : M B) → Steady m → Steady n → Steady (if b then m else n)
  Steady-if true m n h k = h
  Steady-if false m n h k = k

module _ {before : Bool} where
  module _ {A B : Type 0} {after : B → Bool} where
    pub Balanced-bind :
        (m : M A) (f : A → M B)
        → Steady m
        → ((a : A) → Balanced before after (f a))
        → Balanced before after (m >>= f)
    Balanced-bind m f h k = record {
      at = λ r w w' e.
          let (a, v, e₁, e₂) = >>=-eq-done m f {w = w} {w'' = w'} {b = r} e in
          let first = h.at a w v e₁ in let last = (k a).at r v w' e₂ in omega arith;
    }

  module _ {B : Type 0} {after : B → Bool} where
    pub Balanced-then :
        (m : M (Unit {0})) (k : M B)
        → Steady m
        → Balanced before after k
        → Balanced before after (m >> k)
    Balanced-then m k h l = Balanced-bind m (λ _. k) h (λ _. l)

  module _ {A : Type 0} {after : A → Bool} where
    pub Balanced-faults : Balanced before after (faults {A = A})
    Balanced-faults = record { at = λ r w w' e. absurd (ground arith) }

    pub Balanced-if :
        (b : Bool) (m n : M A)
        → Balanced before after m
        → Balanced before after n
        → Balanced before after (if b then m else n)
    Balanced-if true m n h k = h
    Balanced-if false m n h k = k

    pub Balanced-maybe :
        {C : Type 0} (o : Option C) (m : M A) (f : C → M A)
        → Balanced before after m
        → ((c : C) → Balanced before after (f c))
        → Balanced before after (maybe o m f)
    Balanced-maybe none m f h k = h
    Balanced-maybe (some c) m f h k = k c

client_new_lem :
    (env : Env) (opened : Bool) (w w' : World)
    → lockdownd_client_new env w ≡ done opened w'
    → w'.preflight.lockdowns ≡ w.preflight.lockdowns + bit opened
unfolding lockdownd_client_new
client_new_lem env true w w' e = ground arith
client_new_lem env false w w' e = ground arith

module _ {B : Type 0} {after : B → Bool} where
  -- A client is opened, or there is none.
  pub Balanced-open :
      (env : Env) (f : Bool → M B)
      → Balanced true after (f true)
      → Balanced false after (f false)
      → Balanced false after (lockdownd_client_new env >>= f)
  Balanced-open env f h k = record {
    at = λ r w w' e.
        let (opened, v, e₁, e₂) =
          >>=-eq-done (lockdownd_client_new env) f {w = w} {w'' = w'} {b = r} e in
        let first = client_new_lem env opened w v e₁ in
        let last = (either opened).at r v w' e₂ in omega arith;
  }
    where
      either : (opened : Bool) → Balanced opened after (f opened)
      either true = h
      either false = k

  pub Balanced-free :
      (k : M B) → Balanced false after k → Balanced true after (lockdownd_client_free >> k)
  unfolding lockdownd_client_free
  Balanced-free k l = record {
    at = λ r w w' e.
        let (v, e₁, e₂) = >>-eq-done lockdownd_client_free k {w = w} {w'' = w'} {b = r} e in
        let one : v.preflight.lockdowns + 1 ≡ w.preflight.lockdowns = ground arith in
        let last = l.at r v w' e₂ in omega arith;
  }

-- Two programs of which the second gets the client of the first.
pub Balanced-step :
    {A B : Type 0} {before : Bool} {between : A → Bool} {after : B → Bool} (m : M A) (f : A → M B)
    → Balanced before between m
    → ((a : A) → Balanced (between a) after (f a))
    → Balanced before after (m >>= f)
Balanced-step m f h k = record {
  at = λ r w w' e.
      let (a, v, e₁, e₂) = >>=-eq-done m f {w = w} {w'' = w'} {b = r} e in
      let first = h.at a w v e₁ in let last = (k a).at r v w' e₂ in omega arith;
}

pub Balanced-pure :
    {A : Type 0} {before : Bool} {after : A → Bool} (a : A)
    → after a ≡ before
    → Balanced before after (pure a)
Balanced-pure a h = record { at = λ r w w' e. ground (arith, h) }

pub Balanced-free_last :
    {after : Unit {0} → Bool} → after tt ≡ false → Balanced true after lockdownd_client_free
unfolding lockdownd_client_free
Balanced-free_last h = record { at = λ r w w' e. ground (arith, h) }

pub Steady-Balanced :
    {A : Type 0} {before : Bool} {after : A → Bool} (m : M A)
    → Steady m
    → ((a : A) → after a ≡ before)
    → Balanced before after m
Steady-Balanced m h k = record { at = λ r w w' e. let same = h.at r w w' e in ground (arith, k r) }

pub same_bit : (b : Bool) → b ≡ b
same_bit b = refl

pub ruleset steady_rules = (
  Steady-bind, Steady-then, Steady-pure, Steady-get, Steady-faults, Steady-if, Steady-tick,
  Steady-modify, same_count, Steady-load_callback,
)

pub ruleset balanced_rules = (
  Balanced-bind, Balanced-then, Balanced-open, Balanced-free, Balanced-faults, Balanced-if,
  Balanced-maybe, Balanced-pure, Balanced-free_last, Steady-Balanced, same_bit,
)

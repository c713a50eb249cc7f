-- ===== src/Base/Steps.antt =====
-- A chain of steps on a state that succeeds has succeeded at each step.
use mathlib.Core.Path.{◌≡◌, refl, ap}
use mathlib.Core.Bool.{Bool, true, false}
use cobo_iam_services.Base.Fallible.{wrap-eq-ok}
use cobo_iam_services.Base.Results.{Result, Error, ok, err, Exec, ◌>>=◌, continue, wrapping, unless}

ok-err {ℓ} : {B : Type ℓ} {e : Error} {b : B} → Path (Result B) (err e) (ok b) → ⊥
ok-err h = cc

module _ {ℓ κ μ} {S : Type ℓ} {A : Type κ} {B : Type μ} where
  continue-ok :
      (r : Result A) (f : A → Exec S B) (s s' : S) (b : B)
      → continue r f s ≡ (ok b, s')
      → (a : A) × (r ≡ ok a) × (f a s ≡ (ok b, s'))
  continue-ok (ok a) f s s' b h = (a, refl, h)
  continue-ok (err e) f s s' b h = elim (ok-err (ap (λ x. x.0) h)) [ ]

  pub step-ok :
      (m : Exec S A) (f : A → Exec S B) (s s' : S) (b : B)
      → (m >>= f) s ≡ (ok b, s')
      → (a : A) × (m s ≡ (ok a, (m s).1)) × (f a (m s).1 ≡ (ok b, s'))
  step-ok m f s s' b h =
      let (a, r, rest) = continue-ok (m s).0 f (m s).1 s' b h in (a, ap (λ x. (x, (m s).1)) r, rest)

module _ {ℓ κ} {S : Type ℓ} {A : Type κ} where
  pub guard-ok :
      (test : Bool) (e : Error) (m : Exec S A) (s s' : S) (a : A)
      → unless test e m s ≡ (ok a, s')
      → (test ≡ false) × (m s ≡ (ok a, s'))
  guard-ok true e m s s' a h = elim (ok-err (ap (λ x. x.0) h)) [ ]
  guard-ok false e m s s' a h = (refl, h)

  pub wrapping-ok :
      (note : Prim.Native.String.String) (m : Exec S A) (s s' : S) (a : A)
      → wrapping note m s ≡ (ok a, s')
      → m s ≡ (ok a, (m s).1)
  wrapping-ok note m s s' a h = ap (λ x. (x, (m s).1)) (wrap-eq-ok note (m s).0 (ap (λ x. x.0) h))

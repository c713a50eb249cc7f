-- ===== src/Base/Fallible.antt =====
-- `do` blocks for functions that return a value or an error and keep no state.
use mathlib.Core.Path.{◌≡◌, refl}
use mathlib.Core.Logic.{◌⊎◌, inl, inr}
use cobo_iam_services.Base.Results.{Result, Error, ok, err, wrap}

module _ {ℓ κ} {A : Type ℓ} {B : Type κ} where
  infixl 5 ◌>>=◌
  abbrev pub ◌>>=◌ : Result A → (A → Result B) → Result B
  ok a >>= f = f a
  err e >>= f = err e

  -- A chain that succeeds has succeeded at its first step.
  pub chain-ok :
      {result : B} (first : Result A) (next : A → Result B)
      → (first >>= next) ≡ ok result
      → (value : A) × (first ≡ ok value) × (next value ≡ ok result)
  chain-ok (err failure) next chained = cc
  chain-ok (ok value) next chained = (value, refl, chained)

pub wrap-eq-ok {ℓ} :
    {A : Type ℓ} (note : Prim.Native.String.String) (m : Result A) {a : A}
    → wrap note m ≡ ok a
    → m ≡ ok a
wrap-eq-ok note (ok a) h = h
wrap-eq-ok note (err e) h = cc

pub Result-cases {ℓ} :
    {A : Type ℓ} (r : Result A) → ((a : A) × (r ≡ ok a)) ⊎ ((e : Error) × (r ≡ err e))
Result-cases (ok a) = inl (a, refl)
Result-cases (err e) = inr (e, refl)

-- ===== src/Base/Preserves.antt =====
-- A method preserves an invariant of its state, whether it succeeds or fails.
use mathlib.Core.Bool.{Bool, true, false}
use cobo_iam_services.Base.Results.{Result, Error, ok, err, Exec, ◌>>=◌, continue, lift, unless}

module _ {ℓ κ μ} {S : Type ℓ} (P : S → Type κ) {A : Type μ} where
  unfoldable pub Preserves : Exec S A → Type (ℓ ⊔ κ)
  Preserves m = (s : S) → P s → P (m s).1

  pub unless-Preserves :
      (test : Bool) (e : Error) (m : Exec S A) → Preserves m → Preserves (unless test e m)
  unfolding Preserves
  unless-Preserves true e m keeps s holds = holds
  unless-Preserves false e m keeps s holds = keeps s holds

module _ {ℓ κ μ ν} {S : Type ℓ} (P : S → Type κ) {A : Type μ} {B : Type ν} where
  continue-Preserves :
      (r : Result A) (f : A → Exec S B) (s : S)
      → P s
      → ((a : A) → Preserves P (f a))
      → P (continue r f s).1
  unfolding Preserves
  continue-Preserves (ok a) f s holds keeps = keeps a s holds
  continue-Preserves (err e) f s holds keeps = holds

  pub chain-Preserves :
      (m : Exec S A) (f : A → Exec S B)
      → Preserves P m
      → ((a : A) → Preserves P (f a))
      → Preserves P (m >>= f)
  unfolding Preserves
  chain-Preserves m f first then_keeps s holds =
      continue-Preserves (m s).0 f (m s).1 (first s holds) then_keeps

  pub lift-Preserves :
      (r : Result A) (f : A → Exec S B) → ((a : A) → Preserves P (f a)) → Preserves P (lift r >>= f)
  unfolding Preserves
  lift-Preserves r f keeps s holds = continue-Preserves r f s holds keeps

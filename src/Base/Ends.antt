-- ===== src/Base/Ends.antt =====
-- What a method may end in: an error that leaves the state as it was, or a value and a state that
-- satisfy a condition. One rule for each shape of step.
use mathlib.Core.Path.{◌≡◌, refl, sym, ap, ◌∙◌, subst}
use mathlib.Core.Bool.{Bool, true, false}
use cobo_iam_services.Base.Results.{Result, Error, ok, err, Exec, ◌>>=◌, lift, unless}

pub data Ends {ℓ κ μ} {S : Type ℓ} {A : Type κ} (s : S) (P : A → S → Type μ) (r : Result A × S)
    : Type (ℓ ⊔ κ ⊔ μ) where
  fails : (e : Error) → r ≡ (err e, s) → Ends s P r
  succeeds : (a : A) (s' : S) → r ≡ (ok a, s') → P a s' → Ends s P r

ok-err {ℓ} : {A : Type ℓ} {e : Error} {a : A} → Path (Result A) (ok a) (err e) → ⊥
ok-err h = cc

ok_inj {ℓ} : {A : Type ℓ} {a b : A} → Path (Result A) (ok a) (ok b) → a ≡ b
ok_inj h = cc

module _ {ℓ κ μ ν} {S : Type ℓ} {A : Type κ} {B : Type μ} {P : B → S → Type ν} where
  pub lift-Ends :
      (r : Result A) (f : A → Exec S B) (s : S)
      → ((a : A) → r ≡ ok a → Ends s P (f a s))
      → Ends s P ((lift r >>= f) s)
  lift-Ends (ok a) f s then_ends = then_ends a refl
  lift-Ends (err e) f s then_ends = fails e refl

module _ {ℓ κ ν} {S : Type ℓ} {A : Type κ} {P : A → S → Type ν} where
  pub unless-Ends :
      (test : Bool) (e : Error) (m : Exec S A) (s : S)
      → (test ≡ false → Ends s P (m s))
      → Ends s P (unless test e m s)
  unless-Ends true e m s then_ends = fails e refl
  unless-Ends false e m s then_ends = then_ends refl

  -- The state at the end satisfies what holds before and what success ends in.
  pub Ends-state {μ} :
      {s : S} {r : Result A × S} (Q : S → Type μ)
      → Ends s P r
      → Q s
      → ((a : A) (s' : S) → P a s' → Q s')
      → Q r.1
  Ends-state Q (fails e h) before after = rw h before
  Ends-state Q (succeeds a s' h p) before after = rw h (after a s' p)

  pub Ends-ok : {s s' : S} {r : Result A × S} {a : A} → Ends s P r → r ≡ (ok a, s') → P a s'
  Ends-ok {a = a} (fails e h) is = elim (ok-err (ap (λ x. x.0) (sym is ∙ h))) [ ]
  Ends-ok {s' = s'} {a = a} (succeeds b u h p) is =
      let same : Path (Result A × S) (ok b, u) (ok a, s') = sym h ∙ is in
      subst (λ t. P a t) (ap (λ x. x.1) same) (subst (λ x. P x u) (ok_inj (ap (λ x. x.0) same)) p)

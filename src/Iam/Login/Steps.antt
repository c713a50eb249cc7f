-- ===== src/Iam/Login/Steps.antt =====
-- The steps of a login that succeeds, one at a time, and what a recorded attempt leaves alone.
use cobo_iam_services.Base.{◌≡◌, refl, ap, not, ◌||◌, Option, ◌==◌, Bool-cases, inl, inr}
use cobo_iam_services.Base.Results.{Error, Result, ok, err, Exec}
use cobo_iam_services.Iam.{AuthenticatedUser, LoginRequest, LoginResponse, Dependencies}
use cobo_iam_services.Iam.Attempts.{World, trying, proceed, fail, record_login_attempt, recorded_id}

module _ {S : Type 0} (d : Dependencies S) (req : LoginRequest) where
  err-ok : {e : Error} {b : LoginResponse} → Path (Result LoginResponse) (err e) (ok b) → ⊥
  err-ok h = cc

  proceed-ok {κ} :
      {A : Type κ} (user : Option AuthenticatedUser) (show : Error → Error) (r : Result A)
      (k : A → Exec (World S) LoginResponse) (w w' : World S) (b : LoginResponse)
      → proceed d req user show r k w ≡ (ok b, w')
      → (a : A) × (r ≡ ok a) × (k a w ≡ (ok b, w'))
  proceed-ok user show (ok a) k w w' b h = (a, refl, h)
  proceed-ok user show (err e) k w w' b h = elim (err-ok (ap (λ x. x.0) h)) [ ]

  -- A step that a successful login made has succeeded, and the rest ran on the state it left.
  pub trying-ok {κ} :
      {A : Type κ} (user : Option AuthenticatedUser) (show : Error → Error) (m : Exec S A)
      (k : A → Exec (World S) LoginResponse) (w w' : World S) (b : LoginResponse)
      → trying d req user show m k w ≡ (ok b, w')
      → (a : A) × (m w.ports ≡ (ok a, (m w.ports).1))
        × (k a (record w { ports = (m w.ports).1 }) ≡ (ok b, w'))
  unfolding trying
  trying-ok user show m k w w' b h =
      let (a, r, rest) =
        proceed-ok user show (m w.ports).0 k (record w { ports = (m w.ports).1 }) w' b h in
      (a, ap (λ x. (x, (m w.ports).1)) r, rest)

  ok_inj : {r u : LoginResponse} → ok r ≡ ok u → r ≡ u
  ok_inj h = cc

  pub both :
      {r u : LoginResponse} {w w' : World S}
      → Path (Result LoginResponse × World S) (ok r, w) (ok u, w')
      → (r ≡ u) × (w ≡ w')
  both h = (ok_inj (ap (λ x. x.0) h), ap (λ x. x.1) h)

  pub record-ports :
      (user : Option AuthenticatedUser) (outcome : Option Error) (w : World S)
      → (record_login_attempt d req user outcome w).ports ≡ w.ports
  unfolding record_login_attempt
  record-ports user outcome w =
      elim (Bool-cases (not d.records_attempts || recorded_id req user == "")) [
        | inl y ↦ rw y refl
        | inr n ↦ rw n refl
      ]

  pub fail-not_ok :
      (user : Option AuthenticatedUser) (e shown : Error) (w w' : World S) (resp : LoginResponse)
      → fail d req user e shown w ≡ (ok resp, w')
      → ⊥
  fail-not_ok user e shown w w' resp h = err-ok (ap (λ x. x.0) h)

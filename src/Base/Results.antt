-- ===== src/Base/Results.antt =====
-- internal/platform/errors/errors.go, and the shape of a Go method: it returns a value or an error,
-- and leaves a state behind in both cases.
use Prim.Native.Nat.{ℕ}
use Prim.Native.String.{String}
use mathlib.Core.Bool.{Bool, true, false}
use mathlib.Core.Option.{Option, none, some}
use mathlib.Core.List.{List}

-- The stable machine-readable error codes.
pub data Code : Type 0 where
  invalid_credentials account_locked session_expired password_reset_token_invalid : Code
  email_verification_token_invalid no_active_company_access membership_not_found : Code
  company_context_required company_scope_mismatch permission_denied data_scope_denied : Code
  responsibility_required state_conflict invalid_request mfa_required internal : Code

pub Code-discrete : Discrete Code
Code-discrete = hlevel

-- `HTTPError` without `Cause`, which nothing that is modelled sets; `details` holds the field errors.
pub record HttpError : Type 0 where
  pub code : Code
  pub message : String
  pub http_status : ℕ
  pub details : List (String × String)

-- A Go error: an HTTPError, `fmt.Errorf("…: %w", err)`, or an error of another kind.
pub data Error : Type 0 where
  http : HttpError → Error
  wrapped : String → Error → Error
  plain : String → Error

abbrev pub new_http_error : ℕ → Code → String → Error
new_http_error http_status code message =
    http (record { code = code; message = message; http_status = http_status; details = List.[] })

-- `errors.As` looks through the wrapping.
unfoldable pub as_http_error : Error → Option HttpError
as_http_error (http e) = some e
as_http_error (wrapped note e) = as_http_error e
as_http_error (plain note) = none

pub data Result {ℓ} (A : Type ℓ) : Type ℓ where
  ok : A → Result A
  err : Error → Result A

abbrev pub bind {ℓ κ} : {A : Type ℓ} {B : Type κ} → Result A → (A → Result B) → Result B
bind (ok a) f = f a
bind (err e) f = err e

-- `if err != nil { return fmt.Errorf("note: %w", err) }`
abbrev pub wrap {ℓ} : {A : Type ℓ} → String → Result A → Result A
wrap note (ok a) = ok a
wrap note (err e) = err (wrapped note e)

-- A method on a state `S`; what it wrote before an error stays written.
abbrev pub Exec {ℓ κ} : Type ℓ → Type κ → Type (ℓ ⊔ κ)
Exec S A = S → Result A × S

module _ {ℓ κ} {S : Type ℓ} {A : Type κ} where
  abbrev pub pure : A → Exec S A
  pure a s = (ok a, s)

  abbrev pub raise : Error → Exec S A
  raise e s = (err e, s)

  abbrev pub lift : Result A → Exec S A
  lift r s = (r, s)

  abbrev pub gets : (S → A) → Exec S A
  gets f s = (ok (f s), s)

  abbrev pub wrapping : String → Exec S A → Exec S A
  wrapping note m s = let (r, s') = m s in (wrap note r, s')

  -- `if test { return nil, e }`
  abbrev pub unless : Bool → Error → Exec S A → Exec S A
  unless true e m = raise e
  unless false e m = m

module _ {ℓ κ μ} {S : Type ℓ} {A : Type κ} {B : Type μ} where
  abbrev pub continue : Result A → (A → Exec S B) → Exec S B
  continue (ok a) f s = f a s
  continue (err e) f s = (err e, s)

  infixl 5 ◌>>=◌ ◌>>◌
  abbrev pub ◌>>=◌ : Exec S A → (A → Exec S B) → Exec S B
  ◌>>=◌ m f s = continue (m s).0 f (m s).1

  abbrev pub ◌>>◌ : Exec S A → Exec S B → Exec S B
  m >> n = m >>= λ _. n

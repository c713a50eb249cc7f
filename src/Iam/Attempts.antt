-- ===== src/Iam/Attempts.antt =====
-- internal/iam/app/service.go: recordLoginAttempt, and the steps of Login that record a failure.
use cobo_iam_services.Base.{
  String, Bool, true, false, not, ◌||◌, Option, none, some, List, ◌∷◌, ◌==◌, if◌then◌else◌,
}
use cobo_iam_services.Base.Results.{
  Code, invalid_credentials, account_locked, session_expired, password_reset_token_invalid,
  email_verification_token_invalid, no_active_company_access, membership_not_found,
  company_context_required, company_scope_mismatch, permission_denied, data_scope_denied,
  responsibility_required, state_conflict, invalid_request, mfa_required, internal, Error,
  HttpError, as_http_error, Result, ok, err, Exec,
}
use cobo_iam_services.GoText.{trim_space, is_blank, to_lower}
use cobo_iam_services.Iam.{AuthenticatedUser, LoginRequest, LoginAttemptRecord, Dependencies}

-- errors.go: the codes as they are written
abbrev pub code_text : Code → String
code_text invalid_credentials = "INVALID_CREDENTIALS"
code_text account_locked = "ACCOUNT_LOCKED"
code_text session_expired = "SESSION_EXPIRED"
code_text password_reset_token_invalid = "PASSWORD_RESET_TOKEN_INVALID_OR_EXPIRED"
code_text email_verification_token_invalid = "EMAIL_VERIFICATION_TOKEN_INVALID_OR_EXPIRED"
code_text no_active_company_access = "NO_ACTIVE_COMPANY_ACCESS"
code_text membership_not_found = "MEMBERSHIP_NOT_FOUND"
code_text company_context_required = "COMPANY_CONTEXT_REQUIRED"
code_text company_scope_mismatch = "COMPANY_SCOPE_MISMATCH"
code_text permission_denied = "PERMISSION_DENIED"
code_text data_scope_denied = "DATA_SCOPE_DENIED"
code_text responsibility_required = "RESPONSIBILITY_REQUIRED"
code_text state_conflict = "STATE_CONFLICT"
code_text invalid_request = "INVALID_REQUEST"
code_text mfa_required = "MFA_REQUIRED"
code_text internal = "INTERNAL_ERROR"

-- The state of the dependencies, and the attempts that the recorder was given, the latest first.
pub record World (S : Type 0) : Type 0 where
  pub ports : S
  pub attempts : List LoginAttemptRecord

abbrev recorded_user : Option AuthenticatedUser → String
recorded_user none = ""
recorded_user (some u) = u.user_id

-- the login id of an attempt: the user's where there is one, and else the request's `login_id`
unfoldable pub recorded_id : LoginRequest → Option AuthenticatedUser → String
recorded_id req none = trim_space (to_lower req.login_id)
recorded_id req (some u) =
    if is_blank u.login_id
    then trim_space (to_lower req.login_id)
    else trim_space (to_lower u.login_id)

abbrev known_code : Option HttpError → String
known_code none = "UNKNOWN"
known_code (some e) = code_text e.code

abbrev failure_code : Option Error → String
failure_code none = ""
failure_code (some e) = known_code (as_http_error e)

abbrev pub is_none : Option Error → Bool
is_none none = true
is_none (some e) = false

-- the record of an attempt that ended in the error, or in none
abbrev pub attempt : LoginRequest → Option AuthenticatedUser → Option Error → LoginAttemptRecord
attempt req user outcome = record {
  login_id = recorded_id req user;
  user_id = recorded_user user;
  success = is_none outcome;
  failure_code = failure_code outcome;
  ip = req.ip;
  user_agent = req.user_agent;
}

module _ {S : Type 0} (d : Dependencies S) where
  unfoldable pub record_login_attempt :
      LoginRequest → Option AuthenticatedUser → Option Error → World S → World S
  record_login_attempt req user outcome w =
      if not d.records_attempts || recorded_id req user == ""
      then w
      else record w { attempts = attempt req user outcome ∷ w.attempts }

  -- a failure, recorded as `e` and returned as `shown`
  abbrev pub fail {ℓ} :
      {A : Type ℓ} → LoginRequest → Option AuthenticatedUser → Error → Error → Exec (World S) A
  fail req user e shown w = (err shown, record_login_attempt req user (some e) w)

  abbrev pub proceed {ℓ κ} :
      {A : Type ℓ} {B : Type κ}
      → LoginRequest
      → Option AuthenticatedUser
      → (Error → Error)
      → Result A
      → (A → Exec (World S) B)
      → Exec (World S) B
  proceed req user show (ok a) k w = k a w
  proceed req user show (err e) k w = (err (show e), record_login_attempt req user (some e) w)

  -- `a, err := m; if err != nil { s.recordLoginAttempt(…, err); return nil, show(err) }`
  unfoldable pub trying {ℓ κ} :
      {A : Type ℓ} {B : Type κ}
      → LoginRequest
      → Option AuthenticatedUser
      → (Error → Error)
      → Exec S A
      → (A → Exec (World S) B)
      → Exec (World S) B
  trying req user show m k w =
      let (r, s') = m w.ports in proceed req user show r k (record w { ports = s' })

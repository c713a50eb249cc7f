-- ===== src/Iam/Login/Recorded.antt =====
-- Each login records one attempt, whatever the dependencies do.
use cobo_iam_services.Base.{
  ◌≡◌, Bool, true, false, not, ◌||◌, Option, none, some, List, ◌∷◌, ◌==◌, if◌then◌else◌,
}
use cobo_iam_services.Base.Results.{Error, Result, ok, err, Exec, as_http_error}
use cobo_iam_services.Iam.{
  AuthenticatedUser, LoginRequest, LoginResponse, LoginAttemptRecord, Dependencies,
}
use cobo_iam_services.Iam.Attempts.{World, attempt, recorded_id}
use cobo_iam_services.Iam.Login.{login_id}
use cobo_iam_services.GoText.{is_blank}

abbrev outcome_of : Result LoginResponse → Option Error
outcome_of (ok resp) = none
outcome_of (err e) = some e

module _ {S : Type 0} (d : Dependencies S) (req : LoginRequest) where
  abbrev verified : Result AuthenticatedUser → Option AuthenticatedUser
  verified (ok user) = some user
  verified (err e) = none

  -- The user whom the password names, and none where the request lacks a login id or a password.
  unfoldable pub known_by_password : S → Option AuthenticatedUser
  known_by_password s =
      if login_id req == "" || is_blank req.password
      then none
      else verified (d.verify (login_id req) req.password s).0

  abbrev bridged : Result (Option AuthenticatedUser × Bool) → S → Option AuthenticatedUser
  bridged (err e) s = none
  bridged (ok (u, true)) s = u
  bridged (ok (u, false)) s = known_by_password s

  abbrev known_with :
      Option (LoginRequest → Exec S (Option AuthenticatedUser × Bool))
      → S
      → Option AuthenticatedUser
  known_with none s = known_by_password s
  known_with (some try) s = let (r, s') = try req s in bridged r s'

  -- The user who is authenticated, before the status and all else is looked at: by the bridge where
  -- it handles the request, and else by the password.
  unfoldable pub known_user : S → Option AuthenticatedUser
  unfolding known_by_password
  known_user s = known_with d.sso s

  -- After a call that returned `r` for the user, the log has one more attempt, of that user and with
  -- the outcome of the call; it is the same without a recorder or where the id to record is empty.
  unfoldable pub Records :
      Option AuthenticatedUser → List LoginAttemptRecord → Result LoginResponse × World S → Type 0
  Records user log (r, w') = w'.attempts ≡ (
      if not d.records_attempts || recorded_id req user == ""
      then log
      else attempt req user (outcome_of r) ∷ log)

  -- What is shown of an error has its code.
  abbrev Shows : (Error → Error) → Type 0
  Shows show = (e : Error) → as_http_error (show e) ≡ as_http_error e

-- ===== src/Iam/Login.antt =====
-- internal/iam/app/service.go: Login and hasPlatformAccessHint.
pub mod Recorded
pub mod Steps
pub mod Sound
use cobo_iam_services.Base.{
  ℕ, String, Bool, true, false, not, ◌&&◌, ◌||◌, Option, none, some, List, [], ◌∷◌, map, ◌==◌,
  if◌then◌else◌,
}
use cobo_iam_services.Base.Results.{
  no_active_company_access, account_locked, invalid_request, internal, Error, new_http_error,
  wrapped, Result, ok, err, Exec,
}
use cobo_iam_services.GoText.{trim_space, is_blank, to_lower, equal_fold}
use cobo_iam_services.Iam.Attempts.{World, record_login_attempt, fail, trying}
use cobo_iam_services.Iam.{
  AuthenticatedUser, LoginRequest, LoginResponse, LoginSession, LoginAttemptRecord, MembershipView,
  MembershipSummary, TokenContext, Dependencies, AccessTokenClaims, CreateSessionParams,
}

abbrev no_active : Error
no_active =
    new_http_error 403 no_active_company_access "User does not have any active company membership."

abbrev not_active : Error
not_active = new_http_error 403 account_locked "account is not active"

abbrev pub login_id : LoginRequest → String
login_id req = if is_blank req.login_id then trim_space req.email else trim_space req.login_id

abbrev required : Error
required = new_http_error 400 invalid_request "login_id and password are required"

abbrev no_user : Error
no_user = new_http_error 500 internal "sso bridge returned no user"

-- hasPlatformAccessHint: some role, among those that can be read, administers
admin_role : List String → Bool
admin_role [] = false
admin_role (r ∷ roles) =
    let code = trim_space (to_lower r) in
    code == "company_admin" || code == "super_admin" || admin_role roles

abbrev administers : Result (List String) → Bool
unfolding admin_role
administers (ok roles) = admin_role roles
administers (err e) = false

unfoldable pub active_only : List MembershipView → List MembershipView
active_only [] = []
active_only (m ∷ ms) =
    let rest = active_only ms in if equal_fold m.status "active" then m ∷ rest else rest

abbrev summary : MembershipView → MembershipSummary
summary m = record {
  company_id = m.company_id;
  company_name = m.company_name;
  membership_id = m.membership_id;
}

module _ {S : Type 0} (d : Dependencies S) where
  unfoldable pub has_platform_access_hint : List MembershipView → S → Bool × S
  unfolding administers
  has_platform_access_hint [] s = (false, s)
  has_platform_access_hint (m ∷ ms) s =
      let (r, s') = d.memberships.get_membership_roles m.membership_id s in
      let rest = has_platform_access_hint ms s' in if administers r then (true, s') else rest

  succeed : LoginRequest → AuthenticatedUser → LoginResponse → Exec (World S) LoginResponse
  unfolding record_login_attempt
  succeed req user resp w = (ok resp, record_login_attempt d req (some user) none w)

  -- the end of Login: the tokens for one active membership, or for a choice among several
  start_session :
      LoginRequest
      → AuthenticatedUser
      → String
      → String
      → Bool
      → List MembershipView
      → Exec (World S) LoginResponse
  unfolding succeed
  start_session req user sid refresh hint (m ∷ []) =
      trying d req (some user) (wrapped "issue access token")
        (d.tokens.issue_access_token (record {
          sub = user.user_id;
          session_id = sid;
          membership_id = m.membership_id;
          company_id = m.company_id;
        }))
        (λ issued.
          trying d req (some user) (wrapped "create session")
            (d.sessions.create (record {
              session_id = sid;
              user_id = user.user_id;
              membership_id = m.membership_id;
              company_id = m.company_id;
              refresh_token = refresh;
              ip = req.ip;
              user_agent = req.user_agent;
            }))
            (λ _. succeed req user (record {
              user_id = user.user_id;
              full_name = user.full_name;
              session = record {
                access_token = issued.0;
                pre_company_token = "";
                refresh_token = refresh;
                expires_in = issued.1;
              };
              current_context =
                  some (record { company_id = m.company_id; membership_id = m.membership_id });
              memberships = [];
              platform_access_hint = hint;
              next_action = "load_effective_access";
            })))
  start_session req user sid refresh hint active =
      trying d req (some user) (wrapped "issue pre-company token")
        (d.tokens.issue_pre_company_token user.user_id sid)
        (λ issued.
          trying d req (some user) (wrapped "create session")
            (d.sessions.create (record {
              session_id = sid;
              user_id = user.user_id;
              membership_id = "";
              company_id = "";
              refresh_token = refresh;
              ip = req.ip;
              user_agent = req.user_agent;
            }))
            (λ _. succeed req user (record {
              user_id = user.user_id;
              full_name = user.full_name;
              session = record {
                access_token = "";
                pre_company_token = issued.0;
                refresh_token = refresh;
                expires_in = issued.1;
              };
              current_context = none;
              memberships = map summary active;
              platform_access_hint = hint;
              next_action = "select_company";
            })))

  -- one of the dependencies that cannot fail
  abbrev using {ℓ κ} :
      {A : Type ℓ} {B : Type κ} → (S → A × S) → (A → Exec (World S) B) → Exec (World S) B
  using m k w = let (a, s') = m w.ports in k a (record w { ports = s' })

  open_session :
      LoginRequest → AuthenticatedUser → List MembershipView → Exec (World S) LoginResponse
  unfolding start_session has_platform_access_hint
  open_session req user [] = fail d req (some user) no_active no_active
  open_session req user (m ∷ ms) = using d.new_uuid λ sid.
      trying d req (some user) (wrapped "issue refresh token")
        (d.tokens.issue_refresh_token sid user.user_id)
        (λ refresh.
          using (has_platform_access_hint (m ∷ ms))
            λ hint. start_session req user sid refresh hint (m ∷ ms))

  list_memberships : LoginRequest → AuthenticatedUser → Exec (World S) LoginResponse
  unfolding active_only open_session
  list_memberships req user =
      trying d req (some user) (wrapped "list memberships")
        (d.memberships.get_memberships_by_user user.user_id)
        (λ ms. open_session req user (active_only ms))

  check_mfa :
      LoginRequest
      → AuthenticatedUser
      → Option (AuthenticatedUser → LoginRequest → Exec S (Unit {0}))
      → Exec (World S) LoginResponse
  unfolding list_memberships
  check_mfa req user none = list_memberships req user
  check_mfa req user (some check) =
      trying d req (some user) (λ e. e) (check user req) (λ _. list_memberships req user)

  accept : LoginRequest → AuthenticatedUser → Exec (World S) LoginResponse
  unfolding check_mfa
  accept req user =
      if to_lower user.status == "active"
      then check_mfa req user d.mfa
      else fail d req (some user) not_active not_active

  with_password : LoginRequest → Exec (World S) LoginResponse
  unfolding accept
  with_password req =
      if login_id req == "" || is_blank req.password
      then fail d req none required required
      else trying d req none (λ e. e) (d.verify (login_id req) req.password) (accept req)

  after_sso : LoginRequest → Option AuthenticatedUser × Bool → Exec (World S) LoginResponse
  unfolding accept with_password
  after_sso req (u, false) = with_password req
  after_sso req (none, true) = fail d req none no_user no_user
  after_sso req (some user, true) = accept req user

  with_sso :
      LoginRequest
      → Option (LoginRequest → Exec S (Option AuthenticatedUser × Bool))
      → Exec (World S) LoginResponse
  unfolding with_password after_sso
  with_sso req none = with_password req
  with_sso req (some try) = trying d req none (λ e. e) (try req) (after_sso req)

  unfoldable pub login : LoginRequest → Exec (World S) LoginResponse
  unfolding with_sso
  login req = with_sso req d.sso

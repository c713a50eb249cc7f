-- ===== src/Iam.antt =====
-- internal/iam/app/contracts.go and hooks.go: the data of the identity service, and the ports that
-- it is built on, each over a state `S` of its implementation.
pub mod Attempts
pub mod Sessions
pub mod Login
pub mod Context
pub mod Tokens
pub mod Recovery
pub mod Credentials
pub mod DualTokens
mod Tests
use cobo_iam_services.Base.{ℕ, String, Bool, Option, List}
use cobo_iam_services.Base.Results.{Exec}

pub record AuthenticatedUser : Type 0 where
  pub user_id : String
  pub login_id : String
  pub full_name : String
  pub status : String
  pub subscription_tier : String

pub record AccessTokenClaims : Type 0 where
  pub sub : String
  pub session_id : String
  pub membership_id : String
  pub company_id : String

pub record CreateSessionParams : Type 0 where
  pub session_id : String
  pub user_id : String
  pub membership_id : String
  pub company_id : String
  pub refresh_token : String
  pub ip : String
  pub user_agent : String

pub record SessionState : Type 0 where
  pub session_id : String
  pub user_id : String
  pub membership_id : String
  pub company_id : String
  pub refresh_token : String
  pub revoked : Bool
  pub ip : String
  pub user_agent : String

pub record LoginAttemptRecord : Type 0 where
  pub login_id : String
  pub user_id : String
  pub success : Bool
  pub failure_code : String
  pub ip : String
  pub user_agent : String

-- `Extensions`, `RememberMe` and `PasswordCipher` are left out: the service does not read them.
pub record LoginRequest : Type 0 where
  pub login_id : String
  pub email : String
  pub password : String
  pub ip : String
  pub user_agent : String
  pub mfa_otp : String

pub record TokenContext : Type 0 where
  pub company_id : String
  pub membership_id : String

pub record MembershipSummary : Type 0 where
  pub company_id : String
  pub company_name : String
  pub membership_id : String

pub record LoginSession : Type 0 where
  pub access_token : String
  pub pre_company_token : String
  pub refresh_token : String
  pub expires_in : ℕ

-- `current_context` is selected by the service where it is there.
pub record LoginResponse : Type 0 where
  pub user_id : String
  pub full_name : String
  pub session : LoginSession
  pub current_context : Option TokenContext
  pub memberships : List MembershipSummary
  pub platform_access_hint : Bool
  pub next_action : String

pub record RefreshResponse : Type 0 where
  pub access_token : String
  pub refresh_token : String
  pub expires_in : ℕ
  pub current_context : TokenContext

pub record SelectCompanyResponse : Type 0 where
  pub access_token : String
  pub expires_in : ℕ
  pub current_context : TokenContext

pub record SessionView : Type 0 where
  pub session_id : String
  pub current_company_id : String
  pub current_membership_id : String
  pub ip : String
  pub user_agent : String
  pub current : Bool
  pub revoked : Bool

-- companyaccess/app/contracts.go
pub record MembershipView : Type 0 where
  pub membership_id : String
  pub user_id : String
  pub company_id : String
  pub company_name : String
  pub status : String

pub record SessionRepository (S : Type 0) : Type 0 where
  pub create : CreateSessionParams → Exec S (Unit {0})
  pub find_by_refresh_token : String → Exec S SessionState
  pub revoke_by_refresh_token : String → Exec S (Unit {0})
  pub update_context : String → String → String → Exec S (Unit {0})
  pub rotate_refresh_token : String → String → Exec S (Unit {0})
  pub list_by_user : String → Exec S (List SessionState)
  pub revoke_by_session_id : String → String → Exec S (Unit {0})
  pub revoke_all_by_user : String → String → Exec S (Unit {0})

pub record TokenIssuer (S : Type 0) : Type 0 where
  pub issue_access_token : AccessTokenClaims → Exec S (String × ℕ)
  pub issue_pre_company_token : String → String → Exec S (String × ℕ)
  pub issue_refresh_token : String → String → Exec S String

-- the queries of companyaccess that the service makes
pub record MembershipQueryService (S : Type 0) : Type 0 where
  pub get_memberships_by_user : String → Exec S (List MembershipView)
  pub get_active_membership : String → String → Exec S (Option MembershipView)
  pub get_membership_roles : String → Exec S (List String)

-- The dependencies of the service. `sso` returns a user and whether it handled the request.
pub record Dependencies (S : Type 0) : Type 0 where
  pub verify : String → String → Exec S AuthenticatedUser
  pub sessions : SessionRepository S
  pub tokens : TokenIssuer S
  pub memberships : MembershipQueryService S
  pub new_uuid : S → String × S
  pub mfa : Option (AuthenticatedUser → LoginRequest → Exec S (Unit {0}))
  pub sso : Option (LoginRequest → Exec S (Option AuthenticatedUser × Bool))
  pub records_attempts : Bool

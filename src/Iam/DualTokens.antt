-- ===== src/Iam/DualTokens.antt =====
-- internal/iam/infra/token/dual/manager.go: access tokens from a primary issuer, all others from an
-- opaque manager, and an inspection that tries a JWT first. The primary issuer and the inspector of
-- JWTs rest on a third-party library, so they are arguments.
use Prim.Native.Char.{code}
use cobo_iam_services.Base.{ℕ, suc, String, if◌then◌else◌, eqb}
use cobo_iam_services.Base.Results.{Result, ok, err, Exec}
use cobo_iam_services.Iam.{AccessTokenClaims, TokenIssuer}
use cobo_iam_services.Iam.Tokens.{PreCompanyTokenClaims}

pub record TokenInspector (S : Type 0) : Type 0 where
  pub inspect_access_token : String → Exec S AccessTokenClaims
  pub inspect_pre_company_token : String → Exec S PreCompanyTokenClaims

pub record Manager (S : Type 0) : Type 0 where
  pub primary : AccessTokenClaims → Exec S (String × ℕ)
  pub opaque_issuer : TokenIssuer S
  pub opaque_inspector : TokenInspector S
  pub jwt : TokenInspector S

unfoldable pub count_dots : String → ℕ
count_dots String.[] = 0
count_dots (String.◌∷◌ c s) =
    let rest = count_dots s in if eqb (code c) b'.' then suc rest else rest

module _ {S : Type 0} (m : Manager S) where
  unfoldable pub issue_access_token : AccessTokenClaims → Exec S (String × ℕ)
  issue_access_token claims = m.primary claims

  unfoldable pub issue_pre_company_token : String → String → Exec S (String × ℕ)
  issue_pre_company_token user_id session_id =
      m.opaque_issuer.issue_pre_company_token user_id session_id

  unfoldable pub issue_refresh_token : String → String → Exec S String
  issue_refresh_token session_id user_id = m.opaque_issuer.issue_refresh_token session_id user_id

  abbrev or_opaque : String → Result AccessTokenClaims × S → Result AccessTokenClaims × S
  or_opaque token (ok claims, s) = (ok claims, s)
  or_opaque token (err e, s) = m.opaque_inspector.inspect_access_token token s

  unfoldable pub inspect_access_token : String → Exec S AccessTokenClaims
  unfolding count_dots
  inspect_access_token token s =
      if eqb (count_dots token) 2
      then or_opaque token (m.jwt.inspect_access_token token s)
      else m.opaque_inspector.inspect_access_token token s

  unfoldable pub inspect_pre_company_token : String → Exec S PreCompanyTokenClaims
  inspect_pre_company_token token = m.opaque_inspector.inspect_pre_company_token token

  abbrev pub new_manager : TokenIssuer S × TokenInspector S
  new_manager = (
    record {
      issue_access_token = issue_access_token;
      issue_pre_company_token = issue_pre_company_token;
      issue_refresh_token = issue_refresh_token;
    },
    record {
      inspect_access_token = inspect_access_token;
      inspect_pre_company_token = inspect_pre_company_token;
    },
  )

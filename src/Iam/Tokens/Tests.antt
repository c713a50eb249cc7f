-- ===== src/Iam/Tokens/Tests.antt =====
-- An access token, and two tokens issued after it.
use cobo_iam_services.Base.{◌≡◌, refl, [], ◌∷◌}
use cobo_iam_services.Base.Results.{ok}
use cobo_iam_services.Base.Unary.{uuid, uuid_inj}
use cobo_iam_services.Iam.{AccessTokenClaims}
use cobo_iam_services.Iam.Tokens.{
  TokenManager, issue_access_token, inspect_access_token, issue_all, access, renewal, inspect-issue,
}

abbrev claims : AccessTokenClaims
claims = record { sub = "u_1"; session_id = "s_1"; membership_id = "m_1"; company_id = "c_1" }

abbrev other : AccessTokenClaims
other = record claims { company_id = "c_2" }

abbrev empty : TokenManager
empty = record { access_tokens = []; pre_company_tokens = []; next_id = 0 }

abbrev issued : TokenManager
issued = (issue_access_token uuid claims empty).1

first_token : issue_access_token uuid claims empty ≡ (ok ("atk_", 900), issued)
unfolding issue_access_token
first_token = refl

inspect-issue_example :
    (inspect_access_token "atk_"
      (issue_all uuid (access other ∷ renewal "s_1" "u_1" ∷ []) issued)).0
    ≡ ok claims
inspect-issue_example =
    inspect-issue uuid (access other ∷ renewal "s_1" "u_1" ∷ []) claims "atk_" 900 empty issued
      uuid_inj first_token

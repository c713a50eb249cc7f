-- ===== src/Iam/Context.antt =====
-- internal/iam/app/service.go: Refresh, Logout, the choice of a company, and the list of sessions.
pub mod Replay
use cobo_iam_services.Base.{ℕ, String, ◌||◌, Option, none, some, List, map, ◌==◌}
use cobo_iam_services.Base.Results.{
  invalid_request, session_expired, company_context_required, membership_not_found, new_http_error,
  Error, Exec, pure, raise, unless, wrapping, ◌>>=◌, ◌>>◌,
}
use cobo_iam_services.GoText.{is_blank}
use cobo_iam_services.Iam.{
  AccessTokenClaims, SessionState, SessionView, RefreshResponse, SelectCompanyResponse,
  MembershipView, Dependencies,
}

abbrev expired : String → Error
expired message = new_http_error 401 session_expired message

abbrev missing : String → Error
missing message = new_http_error 400 invalid_request message

module _ {S : Type 0} (d : Dependencies S) where
  abbrev rotate_to : SessionState → String × ℕ → String → Exec S RefreshResponse
  rotate_to ss issued new_refresh =
      wrapping "rotate refresh token" (d.sessions.rotate_refresh_token ss.session_id new_refresh)
      >> pure (record {
        access_token = issued.0;
        refresh_token = new_refresh;
        expires_in = issued.1;
        current_context = record { company_id = ss.company_id; membership_id = ss.membership_id };
      })

  abbrev renew : SessionState → String × ℕ → Exec S RefreshResponse
  renew ss issued =
      wrapping "issue refresh token" (d.tokens.issue_refresh_token ss.session_id ss.user_id)
      >>= rotate_to ss issued

  abbrev claims_of : SessionState → AccessTokenClaims
  claims_of ss = record {
    sub = ss.user_id;
    session_id = ss.session_id;
    membership_id = ss.membership_id;
    company_id = ss.company_id;
  }

  -- Refresh for the session that has the token
  abbrev refresh_session : SessionState → Exec S RefreshResponse
  refresh_session ss = unless ss.revoked (expired "session expired") (
      unless (ss.company_id == "" || ss.membership_id == "")
        (new_http_error 422 company_context_required "company context is required")
        (wrapping "issue access token" (d.tokens.issue_access_token (claims_of ss)) >>= renew ss))

  unfoldable pub refresh : String → Exec S RefreshResponse
  refresh refresh_token =
      unless (is_blank refresh_token) (missing "refresh_token is required")
        do ss ← d.sessions.find_by_refresh_token refresh_token; refresh_session ss

  unfoldable pub logout : String → Exec S (Unit {0})
  logout refresh_token =
      unless (is_blank refresh_token) (missing "refresh_token is required")
        (d.sessions.revoke_by_refresh_token refresh_token)

  bind_to : String → String → Option MembershipView → Exec S SelectCompanyResponse
  bind_to user_id session_id none =
      raise (new_http_error 403 membership_not_found "membership not found in company")
  bind_to user_id session_id (some m) = do
    wrapping "update session context"
        (d.sessions.update_context session_id m.membership_id m.company_id)
    (access, expires_in) ← wrapping "issue access token" (
        d.tokens.issue_access_token (record {
          sub = user_id;
          session_id = session_id;
          membership_id = m.membership_id;
          company_id = m.company_id;
        }))
    pure (record {
      access_token = access;
      expires_in = expires_in;
      current_context = record { company_id = m.company_id; membership_id = m.membership_id };
    })

  -- SelectCompany and SwitchCompany both are this.
  unfoldable pub bind_company : String → String → String → Exec S SelectCompanyResponse
  unfolding bind_to
  bind_company user_id session_id company_id =
      unless (user_id == "" || session_id == "") (expired "invalid session token") (
        unless (is_blank company_id) (missing "company_id is required") do
          m ← d.memberships.get_active_membership user_id company_id
          bind_to user_id session_id m)

  abbrev view : String → SessionState → SessionView
  view current_session_id ss = record {
    session_id = ss.session_id;
    current_company_id = ss.company_id;
    current_membership_id = ss.membership_id;
    ip = ss.ip;
    user_agent = ss.user_agent;
    current = ss.session_id == current_session_id;
    revoked = ss.revoked;
  }

  unfoldable pub list_sessions : String → String → Exec S (List SessionView)
  list_sessions user_id current_session_id =
      unless (is_blank user_id) (expired "invalid session token")
        do sessions ← d.sessions.list_by_user user_id; pure (map (view current_session_id) sessions)

  unfoldable pub revoke_session : String → String → Exec S (Unit {0})
  revoke_session user_id session_id =
      unless (is_blank user_id || is_blank session_id)
        (missing "user_id and session_id are required")
        (d.sessions.revoke_by_session_id user_id session_id)

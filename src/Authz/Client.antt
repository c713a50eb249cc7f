-- ===== src/Authz/Client.antt =====
-- How the business services ask for a decision: the `authorize` method that each of them has.
use cobo_iam_services.Base.{arith, String, ◌≡◌, none, some, Option}
use cobo_iam_services.Base.Results.{
  Code, new_http_error, permission_denied, Result, ok, err, wrapped,
}
use cobo_iam_services.Authz.{
  AuthorizeRequest, AuthorizeDecision, AuthService, Decision, allow, deny,
}

abbrev code_or_denied : Option Code → Code
code_or_denied none = permission_denied
code_or_denied (some c) = c

-- a decision as an error
abbrev pub outcome : AuthorizeDecision → Decision → Result (Unit {0})
outcome d allow = ok tt
outcome d deny = err (new_http_error 403 (code_or_denied d.deny_reason_code) "access denied")

abbrev judge : String → Result AuthorizeDecision → Result (Unit {0})
judge note (err e) = err (wrapped note e)
judge note (ok d) = outcome d d.decision

-- `note` is the text that the service wraps an error of the authorization service in.
unfoldable pub require : String → AuthService → AuthorizeRequest → Result (Unit {0})
require note auth req = judge note (auth.authorize req)

-- A request passes only on a decision to allow it.
pub require-ok :
    (note : String) (auth : AuthService) (req : AuthorizeRequest)
    → require note auth req ≡ ok tt
    → (d : AuthorizeDecision) × (auth.authorize req ≡ ok d) × (d.decision ≡ allow)
unfolding require
require-ok note auth req h = ground arith

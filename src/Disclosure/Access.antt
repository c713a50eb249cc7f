-- ===== src/Disclosure/Access.antt =====
-- internal/disclosure/app/service.go: how the service asks whether a caller may do something.
use cobo_iam_services.Base.{String, Bool, false, ◌||◌, List, [], ◌∷◌, ◌==◌}
use cobo_iam_services.Base.Results.{new_http_error, permission_denied, Result, ok, err, Error}
use cobo_iam_services.Authz.{AuthService, SubjectRef, ResourceRef, EffectiveAccessSummary, text}
use cobo_iam_services.Authz.Client.{require}

abbrev pub authorize : AuthService → SubjectRef → String → ResourceRef → Result (Unit {0})
authorize auth subject action resource =
    require "authorize disclosure action" auth
      (record { subject = subject; action = action; resource = resource })

-- the resource that the handlers name: a record, its department and its workflow state
abbrev pub record_resource : String → String → String → String → ResourceRef
record_resource id department_id membership_id workflow_state = record {
  type = "disclosure_record";
  id = id;
  attributes =
      ("department_id", text department_id)
      ∷ ("owner_membership_id", text membership_id)
      ∷ ("workflow_state", text workflow_state)
      ∷ [];
}

unfoldable pub require_catalog_read : AuthService → SubjectRef → Result (Unit {0})
require_catalog_read auth subject =
    authorize auth subject "disclosure.create"
      (record_resource "" "general" subject.membership_id "draft")

unfoldable pub holds_permission : String → List String → Bool
holds_permission permission [] = false
holds_permission permission (p ∷ permissions) =
    p == permission || holds_permission permission permissions

abbrev held : String → Result EffectiveAccessSummary → Bool
held permission (err e) = false
held permission (ok access) = holds_permission permission access.permissions

unfoldable pub has_permission : AuthService → SubjectRef → String → Bool
unfolding holds_permission
has_permission auth subject permission =
    held permission (auth.get_effective_access subject.membership_id subject.company_id)

abbrev pub access_denied : Error
access_denied = new_http_error 403 permission_denied "access denied"

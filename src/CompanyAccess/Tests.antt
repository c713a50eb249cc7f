-- ===== src/CompanyAccess/Tests.antt =====
-- An administrator of a company adds a user to it, and grants a role and takes it away.
use cobo_iam_services.Base.{
  suc, String, ◌≡◌, ◌⊎◌, refl, false, true, none, some, List, [], ◌∷◌, ltb,
}
use cobo_iam_services.Base.Results.{ok}
use cobo_iam_services.Base.Unary.{uuid}
use cobo_iam_services.GoText.{trim_space, byte_length}
use cobo_iam_services.Dict.{lookup}
use cobo_iam_services.Authz.{
  AuthService, AuthorizeDecision, allow, SubjectRef, EffectiveAccessSummary,
}
use cobo_iam_services.CompanyAccess.{UserView, CreateUserRequest, LinkRequest}
use cobo_iam_services.CompanyAccess.Repository.{State, new_admin_repository}
use cobo_iam_services.CompanyAccess.Admin
use cobo_iam_services.CompanyAccess.Admin.{Ports, has_permission}
use cobo_iam_services.CompanyAccess.Logins.{IsIndexed}
use cobo_iam_services.CompanyAccess.Logins.Calls.{Call, creates_user, assigns, role, IsFilled, run}
use cobo_iam_services.CompanyAccess.Logins.Unique.{run-unique_login}
use cobo_iam_services.CompanyAccess.Confined.{Joins, create_user-Joins_own}
use cobo_iam_services.CompanyAccess.Grants.{
  adds, removes, apply, replay, linked, apply-replay_grants,
}

abbrev consent : AuthorizeDecision
consent = record {
  decision = allow;
  matched_permissions = [];
  scope_reasons = [];
  responsibility_reasons = [];
  deny_reason_code = none;
}

abbrev access : EffectiveAccessSummary
access = record {
  company_id = "c_1";
  membership_id = "m_1";
  permissions = "dashboard.view" ∷ [];
  data_scope = record {
    scope_type = "company";
    departments = [];
    record_assignments = [];
    has_company_wide_access = true;
    org_unit_ids = [];
    org_subtree_unit_ids = [];
    position_codes = [];
  };
  responsibilities = [];
}

abbrev ports : Ports
ports = record {
  auth = record { authorize = λ req. ok consent; get_effective_access = λ m c. ok access };
  new_uuid = λ n. uuid (suc n);
  hash_password = λ p. ok p;
}

ports-IsFilled : IsFilled ports.new_uuid
unfolding IsFilled
ports-IsFilled n e = cc

abbrev subject : SubjectRef
subject = record { user_id = "u_1"; membership_id = "m_1"; company_id = "c_1" }

abbrev request : CreateUserRequest
request = record {
  subject = subject;
  login_id = " Ann@x ";
  password = "long enough";
  full_name = "Ann";
  email = "";
  phone = "";
  account_status = "";
  company_id = "";
  membership_status = "";
}

abbrev link : LinkRequest
link = record { subject = subject; membership_id = "m_1"; linked_id = "department_staff" }

abbrev made : State
made = (Admin.create_user ports request new_admin_repository).1

abbrev ann : UserView
ann = record {
  user_id = "u";
  login_id = "ann@x";
  full_name = "Ann";
  email = "";
  phone = "";
  account_status = "active";
  membership_id = "uu";
  membership_status = "active";
  company_id = "c_1";
  company_name = "c_1";
}

abbrev stored : UserView
stored = record ann {
  membership_id = "";
  membership_status = "";
  company_id = "";
  company_name = "";
}

makes : Admin.create_user ports request new_admin_repository ≡ (ok ann, made)
unfolding Admin.create_user cobo_iam_services.Authz.Client.require has_permission Admin.check_user
    trim_space cobo_iam_services.GoText.to_lower cobo_iam_services.GoText.is_space Admin.add_user
    Admin.target_company cobo_iam_services.CompanyAccess.Repository.create_user lookup
    Admin.target_status
makes = refl

is_modest : has_permission ports subject "rbac.manage" ≡ ok false
unfolding has_permission
is_modest = refl

create_user-Joins_own_example :
    ((trim_space "" ≡ "") ⊎ (trim_space "" ≡ "c_1"))
    × (ltb (byte_length "long enough") 8 ≡ false)
    × Joins "c_1" "u" new_admin_repository made
create_user-Joins_own_example =
    create_user-Joins_own ports request new_admin_repository made ann is_modest makes

starts-IsIndexed : IsIndexed new_admin_repository
unfolding IsIndexed lookup
starts-IsIndexed k u h = cc

abbrev calls : List Call
calls = creates_user request ∷ creates_user request ∷ assigns role link ∷ []

ann_stored : lookup "u" (run ports calls new_admin_repository).users ≡ some stored
unfolding lookup run Admin.assign_role cobo_iam_services.Authz.Client.require
    cobo_iam_services.CompanyAccess.Repository.add_role Admin.create_user has_permission
    Admin.check_user trim_space cobo_iam_services.GoText.to_lower cobo_iam_services.GoText.is_space
    Admin.add_user Admin.target_company cobo_iam_services.CompanyAccess.Repository.create_user
    cobo_iam_services.Dict.insert
ann_stored = refl

run-unique_login_example : Path String "u" "u"
run-unique_login_example =
    run-unique_login ports calls new_admin_repository "u" "u" stored stored ports-IsFilled
      starts-IsIndexed ann_stored ann_stored refl

starts_empty : (k v : String) → linked [] k v ≡ false
unfolding lookup
starts_empty k v = refl

apply-replay_grants_example :
    linked (apply (adds "m_1" "r" ∷ removes "m_1" "r" ∷ []) []) "m_1" "r"
    ≡ replay (adds "m_1" "r" ∷ removes "m_1" "r" ∷ []) (λ k v. false) "m_1" "r"
unfolding lookup
apply-replay_grants_example =
    apply-replay_grants (adds "m_1" "r" ∷ removes "m_1" "r" ∷ []) [] (λ k v. false) starts_empty
      "m_1" "r"

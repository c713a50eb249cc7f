-- ===== src/Authz/Tests.antt =====
-- Runs of the authorization service over the repository's fixture, and the theorems at them.
use cobo_iam_services.Base.{
  String, ◌≡◌, refl, false, none, some, List, [], ◌∷◌, there, if◌then◌else◌, leb, ◌+◌,
}
use cobo_iam_services.Base.Results.{Result, ok, err, wrap, Code}
use cobo_iam_services.GoText.{equal_fold, trim_space, is_space, split, contains}
use cobo_iam_services.Dict.{lookup}
use cobo_iam_services.Authz.{
  AuthorizeRequest, AuthorizeDecision, AuthorizeBatchRequest, EffectiveAccessSummary, ActionPolicy,
  allow, deny, string_attribute,
}
use cobo_iam_services.Authz.Checker.{check}
use cobo_iam_services.Authz.Checker.Decides.{check-allow_iff, check-deny, DeniedBy}
use cobo_iam_services.Authz.Checker.Permits.{Permits, Listed}
use cobo_iam_services.Authz.Checker.Monotone.{check_mono, Extends}
use cobo_iam_services.Authz.Resolution.{new_resolver, resolve, resolve-IsAbout, IsAbout}
use cobo_iam_services.Authz.Service.{authorize, authorize_batch}
use cobo_iam_services.Authz.Service.Laws.{Answers, authorize-allow, authorize_batch_iff, Each}
use cobo_iam_services.Authz.Store.{new_repository, new_port, new_policies, get_action_policy}
use cobo_iam_services.Authz.Store.Tenancy.{unlisted-allow}
use cobo_iam_services.Authz.Cache.{resolve-resolve, get, new_store}

abbrev resolver : cobo_iam_services.Authz.Resolver
resolver = new_resolver (new_port new_repository)

abbrev request : String → String → AuthorizeRequest
request membership action = record {
  subject = record { user_id = "u_1"; membership_id = membership; company_id = "c_001" };
  action = action;
  resource = record { type = "disclosure_record"; id = "r_1001"; attributes = [] };
}

abbrev access_of : Result EffectiveAccessSummary → EffectiveAccessSummary
access_of (ok eff) = eff
access_of (err e) = record {
  company_id = "";
  membership_id = "";
  permissions = [];
  data_scope = record {
    scope_type = "";
    departments = [];
    record_assignments = [];
    has_company_wide_access = false;
    org_unit_ids = [];
    org_subtree_unit_ids = [];
    position_codes = [];
  };
  responsibilities = [];
}

abbrev editor : EffectiveAccessSummary
editor = access_of (resolver.resolve "m_001" "c_001")

abbrev create_policy : ActionPolicy
create_policy = record {
  action_code = "disclosure.create";
  required_permission = "disclosure.create";
  scope_type = "*";
  workflow_state = "*";
  eligible_actor = "*";
  effect_type = "allow";
  deny_reason_code = "permission_denied";
}

editor_creates : (check (request "m_001" "disclosure.create") editor create_policy).decision ≡ allow
unfolding check resolve trim_space is_space cobo_iam_services.Authz.Checker.contains lookup
    cobo_iam_services.Authz.Store.key equal_fold cobo_iam_services.Authz.Checker.eval_scope
    cobo_iam_services.Authz.Checker.split_or_star cobo_iam_services.GoText.to_lower
    cobo_iam_services.Authz.Checker.scope_loop cobo_iam_services.Authz.Checker.part_reasons
    cobo_iam_services.Authz.Checker.eval_workflow_state
    cobo_iam_services.Authz.Checker.eval_eligible_actor
editor_creates = refl

abbrev decided : Result AuthorizeDecision → AuthorizeDecision
decided (ok d) = d
decided (err e) = record {
  decision = deny;
  matched_permissions = [];
  scope_reasons = [];
  responsibility_reasons = [];
  deny_reason_code = none;
}

abbrev policies : cobo_iam_services.Authz.PolicyRepository
policies = new_policies new_repository

abbrev answer : AuthorizeRequest → AuthorizeDecision
answer req = decided (authorize resolver policies req)

check-allow_iff_example : Permits (request "m_001" "disclosure.create") editor create_policy
check-allow_iff_example =
    (check-allow_iff (request "m_001" "disclosure.create") editor create_policy).0 editor_creates

stranger_denied : (check (request "m_010" "disclosure.create") editor create_policy).decision ≡ deny
unfolding check resolve
stranger_denied = refl

check-deny_example :
    (c : Code) × ((check
        (request "m_010" "disclosure.create")
        editor
        create_policy).deny_reason_code
      ≡ some c)
    × DeniedBy (request "m_010" "disclosure.create") editor create_policy c
check-deny_example =
    check-deny (request "m_010" "disclosure.create") editor create_policy stranger_denied

create_allowed :
    authorize resolver policies (request "m_001" "disclosure.create")
    ≡ ok (answer (request "m_001" "disclosure.create"))
unfolding authorize trim_space is_space resolve get_action_policy
create_allowed = refl

create_decision : (answer (request "m_001" "disclosure.create")).decision ≡ allow
unfolding authorize trim_space is_space resolve get_action_policy check
    cobo_iam_services.Authz.Checker.contains cobo_iam_services.Authz.Store.key equal_fold
    cobo_iam_services.Authz.Checker.eval_scope cobo_iam_services.Authz.Checker.split_or_star
    cobo_iam_services.GoText.to_lower cobo_iam_services.Authz.Checker.scope_loop
    cobo_iam_services.Authz.Checker.part_reasons cobo_iam_services.Authz.Checker.eval_workflow_state
    cobo_iam_services.Authz.Checker.eval_eligible_actor
create_decision = refl

authorize-allow_example :
    (a : Answers resolver policies
      (request "m_001" "disclosure.create")
      (answer (request "m_001" "disclosure.create")))
    × Permits (request "m_001" "disclosure.create") a.eff a.policy
authorize-allow_example =
    authorize-allow resolver policies (request "m_001" "disclosure.create")
      (answer (request "m_001" "disclosure.create")) create_allowed create_decision

admin_allowed :
    authorize resolver policies (request "m_admin_001" "cms.edit")
    ≡ ok (answer (request "m_admin_001" "cms.edit"))
unfolding authorize trim_space is_space resolve get_action_policy
admin_allowed = refl

admin_decision : (answer (request "m_admin_001" "cms.edit")).decision ≡ allow
unfolding authorize trim_space is_space resolve get_action_policy check
    cobo_iam_services.Authz.Checker.contains cobo_iam_services.Authz.Store.key equal_fold
    cobo_iam_services.Authz.Checker.eval_scope cobo_iam_services.Authz.Checker.split_or_star
    cobo_iam_services.GoText.to_lower cobo_iam_services.Authz.Checker.scope_loop
    cobo_iam_services.Authz.Checker.part_reasons cobo_iam_services.Authz.Checker.eval_workflow_state
    cobo_iam_services.Authz.Checker.eval_eligible_actor
admin_decision = refl

missing_policy : lookup "cms.edit" new_repository.policies ≡ none
unfolding lookup
missing_policy = refl

unlisted-allow_example :
    (a : Answers resolver policies
      (request "m_admin_001" "cms.edit")
      (answer (request "m_admin_001" "cms.edit")))
    × Listed "system.settings" a.eff.permissions
unlisted-allow_example =
    unlisted-allow resolver new_repository (request "m_admin_001" "cms.edit")
      (answer (request "m_admin_001" "cms.edit")) missing_policy admin_allowed admin_decision

editor_resolved : resolve (new_port new_repository) "m_001" "c_001" ≡ ok editor
unfolding resolve
editor_resolved = refl

resolve-IsAbout_example : IsAbout "m_001" "c_001" editor
resolve-IsAbout_example =
    resolve-IsAbout (new_port new_repository) "m_001" "c_001" editor editor_resolved

empty_missed : (get 3 "m_001" "c_001" (new_store 10)).0 ≡ none
unfolding get lookup new_store
empty_missed = refl

abbrev batch : AuthorizeBatchRequest
batch = record {
  subject = (request "m_001" "x").subject;
  checks =
      record { action = "disclosure.create"; resource = (request "m_001" "x").resource }
      ∷ record { action = "workflow.review"; resource = (request "m_001" "x").resource }
      ∷ [];
}

abbrev batch_answers : List AuthorizeDecision
batch_answers =
    answer (request "m_001" "disclosure.create") ∷ answer (request "m_001" "workflow.review") ∷ []

batch_answered : authorize_batch resolver policies batch ≡ ok batch_answers
unfolding authorize_batch trim_space is_space resolve cobo_iam_services.Authz.Service.batch_loop
    get_action_policy authorize check
batch_answered = refl

authorize_batch_iff_example : Each resolver policies batch.subject batch.checks batch_answers
authorize_batch_iff_example =
    (authorize_batch_iff resolver policies batch batch_answers (λ e. cc)).0 batch_answered

abbrev promoted : EffectiveAccessSummary
promoted = record editor { permissions = "disclosure.approve" ∷ editor.permissions }

promoted-Extends : Extends editor promoted
promoted-Extends = record {
  company = refl;
  membership = refl;
  permissions = λ a i. there i;
  responsibilities = λ a i. i;
  positions = λ a i. i;
  departments = λ a i. i;
  assignments = λ a i. i;
  org_units = λ a i. i;
  org_subtrees = λ a i. i;
  company_wide_access = λ h. h;
}

check_mono_example :
    (check (request "m_001" "disclosure.create") promoted create_policy).decision ≡ allow
check_mono_example =
    check_mono (request "m_001" "disclosure.create") create_policy editor promoted promoted-Extends
      editor_creates

resolve-resolve_example :
    (cobo_iam_services.Authz.Cache.resolve 7
      (ok editor)
      "m_001"
      "c_001"
      (cobo_iam_services.Authz.Cache.resolve 3 (ok editor) "m_001" "c_001" (new_store 10)).1).0
    ≡ (if leb 7 (3 + (new_store 10).ttl)
        then ok editor
        else wrap "resolve base effective access" (ok editor))
resolve-resolve_example =
    resolve-resolve "m_001" "c_001" (new_store 10) editor 3 7 (ok editor) resolve-IsAbout_example
      empty_missed

-- ===== src/Authz/Checker.antt =====
-- internal/authorization/infra/inmemory/checker.go: the decision for one request, from the
-- effective access of a membership and the policy of an action.
pub mod Parts
pub mod Permits
pub mod Scope
pub mod Decides
pub mod Monotone
use cobo_iam_services.Base.{
  String, ◌<>◌, Bool, true, false, not, ◌&&◌, ◌||◌, Option, none, some, List, [], ◌∷◌, ◌++◌, ◌==◌,
  is_empty, if◌then◌else◌,
}
use cobo_iam_services.Base.Results.{
  Code, company_scope_mismatch, permission_denied, data_scope_denied, state_conflict,
  responsibility_required,
}
use cobo_iam_services.GoText.{to_lower, equal_fold, trim_space, split, contains as text_contains}
use cobo_iam_services.Authz.{
  Decision, allow, deny, AuthorizeRequest, AuthorizeDecision, EffectiveAccessSummary, ActionPolicy,
  DepartmentScope, ResourceAssignment, string_attribute,
}

-- `contains` and `containsResponsibility`
unfoldable pub contains : List String → String → Bool
contains [] target = false
contains (it ∷ items) target = equal_fold it target || contains items target

unfoldable pub contains_department : List DepartmentScope → String → Bool
contains_department [] dep_id = false
contains_department (it ∷ items) dep_id =
    it.department_id == dep_id || contains_department items dep_id

unfoldable pub contains_assignment : List ResourceAssignment → String → String → Bool
contains_assignment [] resource_type resource_id = false
contains_assignment (it ∷ items) resource_type resource_id =
    it.resource_type == resource_type && it.resource_id == resource_id
    || contains_assignment items resource_type resource_id

-- the loop of `splitOrStar`, which trims the parts and drops the empty ones
unfoldable pub drop_blank : List String → List String
drop_blank [] = []
drop_blank (p ∷ raw) =
    let rest = drop_blank raw in let q = trim_space p in if q == "" then rest else q ∷ rest

unfoldable pub split_or_star : String → List String
unfolding drop_blank
split_or_star raw =
    let s = trim_space (to_lower raw) in
    if s == "" || s == "*" then "*" ∷ [] else drop_blank (split b'|' s)

-- what one part of a policy's scope type adds to the reasons
module _ (req : AuthorizeRequest) (eff : EffectiveAccessSummary) where
  abbrev assigned_reason : List String
  assigned_reason =
      if contains_assignment eff.data_scope.record_assignments req.resource.type req.resource.id
      then ("assignment:" <> req.resource.type <> ":" <> req.resource.id) ∷ []
      else []

  abbrev owner_reason : List String
  owner_reason =
      let owner_id = string_attribute "owner_membership_id" req.resource.attributes in
      if not (owner_id == "") && equal_fold owner_id eff.membership_id
      then "owner_only" ∷ []
      else []

  abbrev org_unit_reason : String → List String
  org_unit_reason p =
      let ou_id = string_attribute "org_unit_id" req.resource.attributes in
      if ou_id == ""
      then []
      else if p == "org_unit_self" && contains eff.data_scope.org_unit_ids ou_id
      then ("org_unit_self:" <> ou_id) ∷ []
      else if p == "org_unit_subtree" && contains eff.data_scope.org_subtree_unit_ids ou_id
      then ("org_unit_subtree:" <> ou_id) ∷ []
      else []

  abbrev department_reason : List String
  department_reason =
      let dep_id = string_attribute "department_id" req.resource.attributes in
      if not (dep_id == "") && contains_department eff.data_scope.departments dep_id
      then ("department_membership:" <> dep_id) ∷ []
      else []

  unfoldable pub part_reasons : String → List String
  part_reasons p =
      if p == "assigned_only"
      then assigned_reason
      else if p == "owner_only"
      then owner_reason
      else if p == "org_unit_self" || p == "org_unit_subtree"
      then org_unit_reason p ++ department_reason
      else if p == "company_wide"
      then []
      else if p == "*"
      then "scope:any" ∷ []
      else []

  unfoldable pub scope_loop : List String → List String
  scope_loop [] = []
  scope_loop (p ∷ parts) = part_reasons p ++ scope_loop parts

  unfoldable pub eval_scope : ActionPolicy → List String × Bool
  eval_scope policy =
      if eff.data_scope.has_company_wide_access
      then ("company_wide_access" ∷ [], true)
      else let parts = split_or_star policy.scope_type in
        if is_empty parts
        then ("scope:any" ∷ [], true)
        else let reasons = scope_loop parts in (reasons, not (is_empty reasons))

unfoldable pub eval_workflow_state : AuthorizeRequest → ActionPolicy → Bool
eval_workflow_state req policy =
    let parts = split_or_star policy.workflow_state in
    let state = trim_space (string_attribute "workflow_state" req.resource.attributes) in
    is_empty parts || (contains parts "*" || (state == "" || contains parts state))

abbrev holds_actor : EffectiveAccessSummary → String → Bool
holds_actor eff p =
    contains eff.data_scope.position_codes (to_lower p)
    || contains eff.responsibilities (to_lower p)

unfoldable pub actor_loop : EffectiveAccessSummary → List String → Bool
actor_loop eff [] = false
actor_loop eff (p ∷ parts) = holds_actor eff p || actor_loop eff parts

unfoldable pub eval_eligible_actor : EffectiveAccessSummary → ActionPolicy → Bool
eval_eligible_actor eff policy =
    let parts = split_or_star policy.eligible_actor in
    is_empty parts || (contains parts "*" || actor_loop eff parts)

abbrev denied : Code → List String → List String → AuthorizeDecision
denied code matched scope_reasons = record {
  decision = deny;
  matched_permissions = matched;
  scope_reasons = scope_reasons;
  responsibility_reasons = [];
  deny_reason_code = some code;
}

abbrev allowed : List String → List String → List String → AuthorizeDecision
allowed matched scope_reasons resp_reasons = record {
  decision = allow;
  matched_permissions = matched;
  scope_reasons = scope_reasons;
  responsibility_reasons = resp_reasons;
  deny_reason_code = none;
}

abbrev pub is_approval : String → Bool
is_approval action = text_contains (to_lower action) "approve"

-- the last guard of `Check`: an approval wants the approver's responsibility
check_approval :
    AuthorizeRequest → EffectiveAccessSummary → String → List String → AuthorizeDecision
check_approval req eff required scope_reasons =
    if is_approval req.action
    then (if contains eff.responsibilities "workflow_approver:disclosure"
        then allowed (required ∷ []) scope_reasons ("workflow_assignee_rule:legal_approval" ∷ [])
        else denied responsibility_required (required ∷ []) scope_reasons)
    else allowed (required ∷ []) scope_reasons []

-- the guards after that of the scope
check_state :
    AuthorizeRequest
    → EffectiveAccessSummary
    → ActionPolicy
    → String
    → List String
    → AuthorizeDecision
unfolding check_approval
check_state req eff policy required scope_reasons =
    if not (eval_workflow_state req policy)
    then denied state_conflict (required ∷ []) scope_reasons
    else if not (eval_eligible_actor eff policy)
    then denied responsibility_required (required ∷ []) scope_reasons
    else check_approval req eff required scope_reasons

unfoldable pub check : AuthorizeRequest → EffectiveAccessSummary → ActionPolicy → AuthorizeDecision
unfolding check_state
check req eff policy =
    let required = trim_space policy.required_permission in
    let scope = eval_scope req eff policy in
    if not (req.subject.company_id == eff.company_id)
      || not (req.subject.membership_id == eff.membership_id)
    then denied company_scope_mismatch [] []
    else if required == "" || not (contains eff.permissions required)
    then denied permission_denied [] []
    else if not scope.1
    then denied data_scope_denied (required ∷ []) []
    else check_state req eff policy required scope.0

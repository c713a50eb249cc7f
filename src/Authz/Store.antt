-- ===== src/Authz/Store.antt =====
-- internal/authorization/infra/inmemory/repository.go: the in-memory repository, its fixture and
-- its default policies.
pub mod Tenancy
use cobo_iam_services.Base.{String, ◌<>◌, Option, none, some, List, [], ◌∷◌}
use cobo_iam_services.Base.Results.{Result, ok}
use cobo_iam_services.Dict.{Dict, lookup, get_or}
use cobo_iam_services.Authz.{DepartmentScope, ResourceAssignment, ActionPolicy, PolicyRepository}
use cobo_iam_services.Authz.Resolution.{Repository}

pub record Tables : Type 0 where
  pub permissions : Dict (List String)
  pub departments : Dict (List DepartmentScope)
  pub assignments : Dict (List ResourceAssignment)
  pub responsibilities : Dict (List String)
  pub position_codes : Dict (List String)
  pub org_unit_ids : Dict (List String)
  pub org_subtree_unit_ids : Dict (List String)
  pub policies : Dict ActionPolicy

unfoldable pub key : String → String → String
key membership_id company_id = membership_id <> "@" <> company_id

abbrev policy_of : String → String → String → String → ActionPolicy
policy_of action permission scope reason = record {
  action_code = action;
  required_permission = permission;
  scope_type = scope;
  workflow_state = "*";
  eligible_actor = "*";
  effect_type = "allow";
  deny_reason_code = reason;
}

-- The policy of an action that has none of its own.
abbrev pub fallback_policy : String → ActionPolicy
fallback_policy action = policy_of action "system.settings" "*" "permission_denied"

unfoldable pub get_action_policy : Tables → String → String → Result ActionPolicy
unfolding lookup
get_action_policy r company_id action = elim (lookup action r.policies) [
  | some p ↦ ok p
  | none ↦ ok (fallback_policy action)
]

abbrev pub new_port : Tables → Repository
new_port r = record {
  list_permission_codes = λ m c. ok (get_or [] (key m c) r.permissions);
  list_department_scopes = λ m c. ok (get_or [] (key m c) r.departments);
  list_assignments = λ m c. ok (get_or [] (key m c) r.assignments);
  list_responsibilities = λ m c. ok (get_or [] (key m c) r.responsibilities);
  list_position_codes = λ m c. ok (get_or [] (key m c) r.position_codes);
  list_org_unit_ids = λ m c. ok (get_or [] (key m c) r.org_unit_ids);
  list_org_subtree_unit_ids = λ m c. ok (get_or [] (key m c) r.org_subtree_unit_ids);
  get_action_policy = get_action_policy r;
}

abbrev pub new_policies : Tables → PolicyRepository
new_policies r = record { get_action_policy = get_action_policy r }

abbrev pub default_policies : Dict ActionPolicy
default_policies =
    (
      "disclosure.view",
      policy_of "disclosure.view" "disclosure.view"
          "org_unit_subtree|assigned_only|owner_only|company_wide" "scope_denied",
    )
    ∷ (
      "disclosure.create",
      policy_of "disclosure.create" "disclosure.create" "*" "permission_denied",
    )
    ∷ ("disclosure.update", policy_of "disclosure.update" "disclosure.edit" "*" "permission_denied")
    ∷ (
      "disclosure.submit",
      policy_of "disclosure.submit" "disclosure.publish" "*" "permission_denied",
    )
    ∷ (
      "disclosure.approve",
      policy_of "disclosure.approve" "disclosure.approve" "*" "responsibility_required",
    )
    ∷ ("workflow.review", policy_of "workflow.review" "deadline.assign" "*" "permission_denied")
    ∷ []

abbrev admin_permissions : List String
admin_permissions =
    "company.view" ∷ "company.edit" ∷ "recipient.view" ∷ "recipient.manage" ∷ "deadline.view"
    ∷ "deadline.manage" ∷ "deadline.create" ∷ "deadline.assign" ∷ "alert.channels.manage"
    ∷ "disclosure.view" ∷ "disclosure.create" ∷ "disclosure.edit" ∷ "disclosure.publish"
    ∷ "disclosure.delete" ∷ "disclosure.approve" ∷ "user.view" ∷ "user.edit"
    ∷ "workflow.step.confirm" ∷ "workflow.step.override" ∷ "auth.session.manage" ∷ "audit.view"
    ∷ "system.settings" ∷ "rbac.manage" ∷ []

abbrev legal : DepartmentScope
legal = record { department_id = "d_legal"; department_name = "Legal" }

abbrev investor_relations : DepartmentScope
investor_relations = record { department_id = "d_ir"; department_name = "IR" }

abbrev first_record : List ResourceAssignment
first_record = record { resource_type = "disclosure_record"; resource_id = "r_1001" } ∷ []

abbrev approver_and_recipient : List String
approver_and_recipient = "workflow_approver:disclosure" ∷ "notification_recipient:disclosure" ∷ []

abbrev whole_tree : List String
whole_tree = "ou_root" ∷ "ou_legal" ∷ "ou_legal_team_a" ∷ "ou_legal_team_b" ∷ "ou_ir" ∷ []

-- `NewRepository`
abbrev pub new_repository : Tables
new_repository = record {
  permissions =
      (
        "m_001@c_001",
        "company.view" ∷ "dashboard.view" ∷ "disclosure.view" ∷ "disclosure.create"
            ∷ "disclosure.edit" ∷ "disclosure.publish" ∷ [],
      )
      ∷ ("m_002@c_002", "disclosure.view" ∷ [])
      ∷ ("m_010@c_010", "company.view" ∷ "dashboard.view" ∷ [])
      ∷ ("m_admin_001@c_001", admin_permissions)
      ∷ ("m_cms_001@c_001", "platform.cms.view" ∷ admin_permissions)
      ∷ [];
  departments =
      ("m_001@c_001", legal ∷ investor_relations ∷ [])
      ∷ ("m_admin_001@c_001", legal ∷ [])
      ∷ ("m_cms_001@c_001", legal ∷ [])
      ∷ [];
  assignments =
      ("m_001@c_001", first_record)
      ∷ ("m_admin_001@c_001", first_record)
      ∷ ("m_cms_001@c_001", first_record)
      ∷ [];
  responsibilities =
      ("m_001@c_001", approver_and_recipient)
      ∷ ("m_admin_001@c_001", approver_and_recipient)
      ∷ ("m_cms_001@c_001", approver_and_recipient)
      ∷ [];
  position_codes =
      ("m_001@c_001", "truong_phong" ∷ [])
      ∷ ("m_admin_001@c_001", "admin_dn" ∷ [])
      ∷ ("m_cms_001@c_001", "cms_operator" ∷ [])
      ∷ [];
  org_unit_ids =
      ("m_001@c_001", "ou_legal" ∷ [])
      ∷ ("m_admin_001@c_001", "ou_root" ∷ [])
      ∷ ("m_cms_001@c_001", "ou_root" ∷ [])
      ∷ [];
  org_subtree_unit_ids =
      ("m_001@c_001", "ou_legal" ∷ "ou_legal_team_a" ∷ "ou_legal_team_b" ∷ [])
      ∷ ("m_admin_001@c_001", whole_tree)
      ∷ ("m_cms_001@c_001", whole_tree)
      ∷ [];
  policies = default_policies;
}

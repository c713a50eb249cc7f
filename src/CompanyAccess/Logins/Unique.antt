-- ===== src/CompanyAccess/Logins/Unique.antt =====
-- Sequences of the administrators' calls keep the users and their login ids together.
use cobo_iam_services.Base.{String, ◌≡◌, some, List, [], ◌∷◌}
use cobo_iam_services.Base.Results.{◌>>=◌}
use cobo_iam_services.Base.Preserves.{Preserves}
use cobo_iam_services.Dict.{lookup}
use cobo_iam_services.CompanyAccess.{UserView, CreateMembershipRequest, LinkRequest, RuleRequest}
use cobo_iam_services.CompanyAccess.Repository
use cobo_iam_services.CompanyAccess.Repository.{State}
use cobo_iam_services.CompanyAccess.Admin
use cobo_iam_services.CompanyAccess.Admin.{Ports, authorize, next_uuid, store_membership}
use cobo_iam_services.CompanyAccess.Rules
use cobo_iam_services.CompanyAccess.Logins.{IsIndexed, IsIndexed-same}
use cobo_iam_services.CompanyAccess.Logins.Calls.{
  LinkKind, role, department, title, RuleKind, resource_scope, workflow_assignee, notification,
  Call, creates_user, creates_membership, updates_membership, deletes_membership, assigns, removes,
  assigns_permission, removes_permission, creates_rule, IsFilled, assign, remove, create_rule,
  after, run, granted-IsIndexed, created-IsIndexed, next_uuid-IsIndexed,
}

module _ (ports : Ports) where
  create_membership-IsIndexed :
      (req : CreateMembershipRequest) → Preserves IsIndexed (Admin.create_membership ports req)
  unfolding Admin.create_membership Repository.create_membership Preserves IsIndexed
  create_membership-IsIndexed req =
      granted-IsIndexed ports (authorize ports req.subject "admin.membership.create" req.company_id)
        (next_uuid ports >>= store_membership ports req)
        (next_uuid-IsIndexed ports (store_membership ports req) λ n s indexed. indexed)

  assign-IsIndexed :
      (kind : LinkKind) (req : LinkRequest) → Preserves IsIndexed (assign ports kind req)
  unfolding Preserves IsIndexed Admin.assign_role Repository.add_role Admin.assign_department
      Repository.add_department Admin.assign_title Repository.add_title
  assign-IsIndexed role req =
      granted-IsIndexed ports
        (authorize ports req.subject "admin.membership.role.assign" req.membership_id)
        (Repository.add_role req.membership_id req.linked_id) λ s indexed. indexed
  assign-IsIndexed department req =
      granted-IsIndexed ports
        (authorize ports req.subject "admin.membership.department.assign" req.membership_id)
        (Repository.add_department req.membership_id req.linked_id) λ s indexed. indexed
  assign-IsIndexed title req =
      granted-IsIndexed ports
        (authorize ports req.subject "admin.membership.title.assign" req.membership_id)
        (Repository.add_title req.membership_id req.linked_id) λ s indexed. indexed

  remove-IsIndexed :
      (kind : LinkKind) (req : LinkRequest) → Preserves IsIndexed (remove ports kind req)
  unfolding Preserves IsIndexed Admin.remove_role Repository.remove_role Admin.remove_department
      Repository.remove_department Admin.remove_title Repository.remove_title
  remove-IsIndexed role req =
      granted-IsIndexed ports
        (authorize ports req.subject "admin.membership.role.remove" req.membership_id)
        (Repository.remove_role req.membership_id req.linked_id) λ s indexed. indexed
  remove-IsIndexed department req =
      granted-IsIndexed ports
        (authorize ports req.subject "admin.membership.department.remove" req.membership_id)
        (Repository.remove_department req.membership_id req.linked_id) λ s indexed. indexed
  remove-IsIndexed title req =
      granted-IsIndexed ports
        (authorize ports req.subject "admin.membership.title.remove" req.membership_id)
        (Repository.remove_title req.membership_id req.linked_id) λ s indexed. indexed

  create_rule-IsIndexed :
      (kind : RuleKind) (req : RuleRequest) → Preserves IsIndexed (create_rule ports kind req)
  unfolding Preserves IsIndexed Rules.create_resource_scope_rule Repository.add_resource_scope_rule
      Rules.create_workflow_assignee_rule Repository.add_workflow_assignee_rule
      Rules.create_notification_rule Repository.add_notification_rule
  create_rule-IsIndexed resource_scope req =
      granted-IsIndexed ports (authorize ports req.subject "admin.resource_scope_rule.create" "")
        (Repository.add_resource_scope_rule req.payload) λ s indexed. indexed
  create_rule-IsIndexed workflow_assignee req =
      granted-IsIndexed ports (authorize ports req.subject "admin.workflow_assignee_rule.create" "")
        (Repository.add_workflow_assignee_rule req.payload) λ s indexed. indexed
  create_rule-IsIndexed notification req =
      granted-IsIndexed ports (authorize ports req.subject "admin.notification_rule.create" "")
        (Repository.add_notification_rule req.payload) λ s indexed. indexed

  after-IsIndexed :
      (c : Call) (s : State) → IsFilled ports.new_uuid → IsIndexed s → IsIndexed (after ports c s)
  unfolding Preserves IsIndexed Admin.update_membership Repository.update_membership_status
      Admin.delete_membership Repository.delete_membership Rules.assign_role_permission
      Repository.add_role_permission Rules.remove_role_permission Repository.remove_role_permission
  after-IsIndexed (creates_user req) s filled indexed = created-IsIndexed ports req filled s indexed
  after-IsIndexed (creates_membership req) s filled indexed =
      create_membership-IsIndexed req s indexed
  after-IsIndexed (updates_membership req) s filled indexed =
      granted-IsIndexed ports
        (authorize ports req.subject "admin.membership.update" req.membership_id)
        (Repository.update_membership_status req.membership_id req.status) (λ t known. known) s
        indexed
  after-IsIndexed (deletes_membership req) s filled indexed =
      granted-IsIndexed ports
        (authorize ports req.subject "admin.membership.delete" req.membership_id)
        (Repository.delete_membership req.membership_id) (λ t known. known) s indexed
  after-IsIndexed (assigns kind req) s filled indexed = assign-IsIndexed kind req s indexed
  after-IsIndexed (removes kind req) s filled indexed = remove-IsIndexed kind req s indexed
  after-IsIndexed (assigns_permission req) s filled indexed =
      granted-IsIndexed ports
        (authorize ports req.subject "admin.role.permission.assign" req.role_id)
        (Repository.add_role_permission req.role_id req.permission_id) (λ t known. known) s indexed
  after-IsIndexed (removes_permission req) s filled indexed =
      granted-IsIndexed ports
        (authorize ports req.subject "admin.role.permission.remove" req.role_id)
        (Repository.remove_role_permission req.role_id req.permission_id) (λ t known. known) s
        indexed
  after-IsIndexed (creates_rule kind req) s filled indexed =
      create_rule-IsIndexed kind req s indexed

  run-IsIndexed :
      (calls : List Call) (s : State)
      → IsFilled ports.new_uuid
      → IsIndexed s
      → IsIndexed (run ports calls s)
  unfolding run
  run-IsIndexed [] s filled indexed = indexed
  run-IsIndexed (c ∷ calls) s filled indexed =
      run-IsIndexed calls (after ports c s) filled (after-IsIndexed c s filled indexed)

  -- After any sequence of the administrators' calls no two users have the same login id. At first
  -- each user is found under its login id, and no identifier of the generator is empty.
  pub run-unique_login :
      (calls : List Call) (s : State) (a b : String) (u v : UserView)
      → IsFilled ports.new_uuid
      → IsIndexed s
      → lookup a (run ports calls s).users ≡ some u
      → lookup b (run ports calls s).users ≡ some v
      → u.login_id ≡ v.login_id
      → a ≡ b
  run-unique_login calls s a b u v filled indexed at_a at_b same =
      IsIndexed-same (run ports calls s) a b u v (run-IsIndexed calls s filled indexed) at_a at_b
        same

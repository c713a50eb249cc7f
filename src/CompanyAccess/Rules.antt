-- ===== src/CompanyAccess/Rules.antt =====
-- internal/companyaccess/app/admin_service.go: the operations on roles, permissions and rules.
use cobo_iam_services.Base.{String, List}
use cobo_iam_services.Base.Results.{Exec, lift, ◌>>◌}
use cobo_iam_services.Authz.{SubjectRef}
use cobo_iam_services.CompanyAccess.{RolePermissionRequest, RuleRequest}
use cobo_iam_services.CompanyAccess.Repository
use cobo_iam_services.CompanyAccess.Repository.{State}
use cobo_iam_services.CompanyAccess.Admin.{Ports, authorize}

module _ (ports : Ports) where
  unfoldable pub list_permissions : SubjectRef → Exec State (List String)
  list_permissions subject = do
    lift (authorize ports subject "admin.permissions.list" "")
    Repository.list_permissions

  -- The in-memory repository lists the roles of all companies.
  unfoldable pub list_roles : SubjectRef → Exec State (List String)
  list_roles subject = do
    lift (authorize ports subject "admin.roles.list" "")
    Repository.list_roles

  unfoldable pub assign_role_permission : RolePermissionRequest → Exec State (Unit {0})
  assign_role_permission req = do
    lift (authorize ports req.subject "admin.role.permission.assign" req.role_id)
    Repository.add_role_permission req.role_id req.permission_id

  unfoldable pub remove_role_permission : RolePermissionRequest → Exec State (Unit {0})
  remove_role_permission req = do
    lift (authorize ports req.subject "admin.role.permission.remove" req.role_id)
    Repository.remove_role_permission req.role_id req.permission_id

  unfoldable pub create_resource_scope_rule : RuleRequest → Exec State (Unit {0})
  create_resource_scope_rule req = do
    lift (authorize ports req.subject "admin.resource_scope_rule.create" "")
    Repository.add_resource_scope_rule req.payload

  unfoldable pub create_workflow_assignee_rule : RuleRequest → Exec State (Unit {0})
  create_workflow_assignee_rule req = do
    lift (authorize ports req.subject "admin.workflow_assignee_rule.create" "")
    Repository.add_workflow_assignee_rule req.payload

  unfoldable pub create_notification_rule : RuleRequest → Exec State (Unit {0})
  create_notification_rule req = do
    lift (authorize ports req.subject "admin.notification_rule.create" "")
    Repository.add_notification_rule req.payload

-- ===== src/CompanyAccess/Admin.antt =====
-- internal/companyaccess/app/admin_service.go: the administrator's operations, each over a decision of
-- the authorization service.
use cobo_iam_services.Base.{ℕ, ◌+◌, String, Bool, not, ◌&&◌, List, [], ◌==◌, ltb, if◌then◌else◌}
use cobo_iam_services.Base.Results.{
  new_http_error, invalid_request, permission_denied, Error, Result, ok, err, wrap, Exec, lift,
  unless, ◌>>=◌, ◌>>◌,
}
use cobo_iam_services.GoText.{trim_space, to_lower, byte_length}
use cobo_iam_services.Authz.{AuthService, SubjectRef, EffectiveAccessSummary}
use cobo_iam_services.Authz.Client.{require}
use cobo_iam_services.Iam.{MembershipView}
use cobo_iam_services.Disclosure.Access.{holds_permission}
use cobo_iam_services.CompanyAccess.{
  UserView, CreateUserOptions, CreateUserRequest, CreateMembershipRequest, UpdateMembershipRequest,
  DeleteMembershipRequest, ListCompanyMembershipsRequest, LinkRequest,
}
use cobo_iam_services.CompanyAccess.Repository
use cobo_iam_services.CompanyAccess.Repository.{State}

abbrev pub bad_request : String → Error
bad_request message = new_http_error 400 invalid_request message

-- The authorization service, the generator of identifiers and `bcrypt.GenerateFromPassword`.
pub record Ports : Type 0 where
  pub auth : AuthService
  pub new_uuid : ℕ → String
  pub hash_password : String → Result String

module _ (ports : Ports) where
  abbrev pub next_uuid : Exec State String
  next_uuid s = (ok (ports.new_uuid s.next_id), record s { next_id = s.next_id + 1 })

  abbrev pub authorize : SubjectRef → String → String → Result (Unit {0})
  authorize subject action resource_id = require "authorize admin action" ports.auth (record {
    subject = subject;
    action = action;
    resource = record { type = "admin_access"; id = resource_id; attributes = [] };
  })

  abbrev held : String → Result EffectiveAccessSummary → Result Bool
  held permission (err e) = err e
  held permission (ok access) = ok (holds_permission permission access.permissions)

  unfoldable pub has_permission : SubjectRef → String → Result Bool
  unfolding holds_permission
  has_permission subject permission = held permission (
      wrap "load effective access"
        (ports.auth.get_effective_access subject.membership_id subject.company_id))

  -- The request with its texts trimmed; the company is the caller's own for all but a web
  -- administrator.
  abbrev or_else : String → String → String
  or_else fallback s = if s == "" then fallback else s

  unfoldable pub target_company : Bool → CreateUserRequest → String
  target_company is_web_admin req =
      if is_web_admin then trim_space req.company_id else req.subject.company_id

  unfoldable pub target_status : Bool → CreateUserRequest → String
  unfolding target_company
  target_status is_web_admin req =
      if target_company is_web_admin req == ""
      then trim_space req.membership_status
      else or_else "active" (trim_space req.membership_status)

  unfoldable pub is_elsewhere : Bool → CreateUserRequest → Bool
  is_elsewhere is_web_admin req =
      not is_web_admin
      && (not (trim_space req.company_id == "")
          && not (trim_space req.company_id == req.subject.company_id))

  unfoldable pub new_user : CreateUserRequest → String → UserView
  new_user req user_id = record {
    user_id = user_id;
    login_id = to_lower (trim_space req.login_id);
    full_name = trim_space req.full_name;
    email = trim_space req.email;
    phone = trim_space req.phone;
    account_status = or_else "active" (trim_space req.account_status);
    membership_id = "";
    membership_status = "";
    company_id = "";
    company_name = "";
  }

  abbrev pub options : String → String → String → CreateUserOptions
  options company_id status membership_id = record {
    membership_id = membership_id;
    company_id = company_id;
    membership_status = status;
  }

  -- an identifier for the membership, if there is one
  unfoldable pub membership_uuid : String → Exec State String
  membership_uuid company_id = if company_id == "" then (λ s. (ok "", s)) else next_uuid

  unfoldable pub store_new_user : Bool → CreateUserRequest → String → String → Exec State UserView
  unfolding membership_uuid new_user
  store_new_user is_web_admin req hash user_id = do
    membership_id ← membership_uuid (target_company is_web_admin req)
    Repository.create_user (new_user req user_id) hash
        (options (target_company is_web_admin req) (target_status is_web_admin req) membership_id)

  -- once the request is known to be right
  unfoldable pub add_user : Bool → CreateUserRequest → Exec State UserView
  unfolding store_new_user
  add_user is_web_admin req = do
    hash ← lift (wrap "hash password" (ports.hash_password req.password))
    user_id ← next_uuid
    store_new_user is_web_admin req hash user_id

  unfoldable pub check_user : Bool → CreateUserRequest → Exec State UserView
  unfolding is_elsewhere
  check_user is_web_admin req =
      unless (is_elsewhere is_web_admin req)
        (new_http_error 403 permission_denied
          "enterprise admin can only create users for current company")
        (unless (to_lower (trim_space req.login_id) == "") (bad_request "login_id required") (
          unless (trim_space req.full_name == "") (bad_request "full_name required") (
            unless (ltb (byte_length req.password) 8)
              (bad_request "password must be at least 8 characters") (add_user is_web_admin req))))

  unfoldable pub create_user : CreateUserRequest → Exec State UserView
  create_user req = do
    lift (authorize req.subject "admin.membership.create" req.subject.company_id)
    is_web_admin ← lift (has_permission req.subject "rbac.manage")
    check_user is_web_admin req

  abbrev pub store_membership : CreateMembershipRequest → String → Exec State MembershipView
  store_membership req membership_id = Repository.create_membership (record {
    membership_id = membership_id;
    user_id = req.user_id;
    company_id = req.company_id;
    company_name = req.company_id;
    status = or_else "active" req.status;
  })

  unfoldable pub create_membership : CreateMembershipRequest → Exec State MembershipView
  create_membership req = do
    lift (authorize req.subject "admin.membership.create" req.company_id)
    membership_id ← next_uuid
    store_membership req membership_id

  unfoldable pub update_membership : UpdateMembershipRequest → Exec State MembershipView
  update_membership req = do
    lift (authorize req.subject "admin.membership.update" req.membership_id)
    Repository.update_membership_status req.membership_id req.status

  unfoldable pub delete_membership : DeleteMembershipRequest → Exec State (Unit {0})
  delete_membership req = do
    lift (authorize req.subject "admin.membership.delete" req.membership_id)
    Repository.delete_membership req.membership_id

  unfoldable pub list_company_memberships :
      ListCompanyMembershipsRequest → Exec State (List MembershipView)
  list_company_memberships req = do
    lift (authorize req.subject "admin.membership.list" req.company_id)
    Repository.list_memberships_by_company req.company_id

  unfoldable pub assign_role : LinkRequest → Exec State (Unit {0})
  assign_role req = do
    lift (authorize req.subject "admin.membership.role.assign" req.membership_id)
    Repository.add_role req.membership_id req.linked_id

  unfoldable pub remove_role : LinkRequest → Exec State (Unit {0})
  remove_role req = do
    lift (authorize req.subject "admin.membership.role.remove" req.membership_id)
    Repository.remove_role req.membership_id req.linked_id

  unfoldable pub assign_department : LinkRequest → Exec State (Unit {0})
  assign_department req = do
    lift (authorize req.subject "admin.membership.department.assign" req.membership_id)
    Repository.add_department req.membership_id req.linked_id

  unfoldable pub remove_department : LinkRequest → Exec State (Unit {0})
  remove_department req = do
    lift (authorize req.subject "admin.membership.department.remove" req.membership_id)
    Repository.remove_department req.membership_id req.linked_id

  unfoldable pub assign_title : LinkRequest → Exec State (Unit {0})
  assign_title req = do
    lift (authorize req.subject "admin.membership.title.assign" req.membership_id)
    Repository.add_title req.membership_id req.linked_id

  unfoldable pub remove_title : LinkRequest → Exec State (Unit {0})
  remove_title req = do
    lift (authorize req.subject "admin.membership.title.remove" req.membership_id)
    Repository.remove_title req.membership_id req.linked_id

-- ===== src/CompanyAccess.antt =====
-- internal/companyaccess/app/admin.go and contracts.go: the users, memberships and grants that an
-- administrator keeps, with the requests that change them.
pub mod Repository
pub mod Admin
pub mod Rules
pub mod Logins
pub mod Confined
pub mod Grants
pub mod Memberships
mod Tests
use cobo_iam_services.Base.{String}
use cobo_iam_services.Authz.{SubjectRef}
use cobo_iam_services.Disclosure.Types.{Fields}

pub record UserView : Type 0 where
  pub user_id : String
  pub login_id : String
  pub full_name : String
  pub email : String
  pub phone : String
  pub account_status : String
  pub membership_id : String
  pub membership_status : String
  pub company_id : String
  pub company_name : String

pub record CreateUserOptions : Type 0 where
  pub membership_id : String
  pub company_id : String
  pub membership_status : String

pub record CreateUserRequest : Type 0 where
  pub subject : SubjectRef
  pub login_id : String
  pub password : String
  pub full_name : String
  pub email : String
  pub phone : String
  pub account_status : String
  pub company_id : String
  pub membership_status : String

pub record CreateMembershipRequest : Type 0 where
  pub subject : SubjectRef
  pub user_id : String
  pub company_id : String
  pub status : String

pub record UpdateMembershipRequest : Type 0 where
  pub subject : SubjectRef
  pub membership_id : String
  pub status : String

pub record DeleteMembershipRequest : Type 0 where
  pub subject : SubjectRef
  pub membership_id : String

pub record ListCompanyMembershipsRequest : Type 0 where
  pub subject : SubjectRef
  pub company_id : String

-- The requests to assign and remove a role, a department and a title have the same fields: a
-- membership, and what is linked to it.
pub record LinkRequest : Type 0 where
  pub subject : SubjectRef
  pub membership_id : String
  pub linked_id : String

-- `AssignRolePermissionRequest` and `RemoveRolePermissionRequest`
pub record RolePermissionRequest : Type 0 where
  pub subject : SubjectRef
  pub role_id : String
  pub permission_id : String

-- The requests to create the three kinds of rules; a payload is a JSON object.
pub record RuleRequest : Type 0 where
  pub subject : SubjectRef
  pub payload : Fields

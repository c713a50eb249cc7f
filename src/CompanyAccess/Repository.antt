-- ===== src/CompanyAccess/Repository.antt =====
-- internal/companyaccess/infra/inmemory/admin_repository.go: the maps of the repository and its
-- methods. A set of texts is a map to the unit type.
use cobo_iam_services.Base.{
  ℕ, String, Bool, false, not, none, some, List, [], ◌∷◌, ◌++◌, ◌==◌, if◌then◌else◌,
}
use cobo_iam_services.Base.Results.{new_http_error, state_conflict, ok, err, Exec}
use cobo_iam_services.Dict.{Dict, lookup, insert, erase, get_or}
use cobo_iam_services.Iam.{MembershipView}
use cobo_iam_services.Disclosure.Types.{Fields}
use cobo_iam_services.CompanyAccess.{UserView, CreateUserOptions}

abbrev pub Set : Type 0
Set = Dict (Unit {0})

pub record State : Type 0 where
  pub users : Dict UserView
  pub users_by_login_id : Dict String
  pub password_hash_by_user_id : Dict String
  pub memberships : Dict MembershipView
  pub roles_by_membership : Dict Set
  pub departments_by_membership : Dict Set
  pub titles_by_membership : Dict Set
  pub permissions : Set
  pub roles : Set
  pub role_permissions : Dict Set
  pub resource_scope_rules : List Fields
  pub workflow_assignee_rules : List Fields
  pub notification_rules : List Fields
  pub next_id : ℕ

abbrev pub new_admin_repository : State
new_admin_repository = record {
  users = [];
  users_by_login_id = [];
  password_hash_by_user_id = [];
  memberships = [];
  roles_by_membership = [];
  departments_by_membership = [];
  titles_by_membership = [];
  permissions =
      ("dashboard.view", tt)
      ∷ ("disclosure.view", tt)
      ∷ ("disclosure.approve", tt)
      ∷ ("rbac.manage", tt)
      ∷ ("system.settings", tt)
      ∷ [];
  roles = ("company_admin", tt) ∷ ("disclosure_approver", tt) ∷ ("department_staff", tt) ∷ [];
  role_permissions = [];
  resource_scope_rules = [];
  workflow_assignee_rules = [];
  notification_rules = [];
  next_id = 0;
}

abbrev or_active : String → String
or_active status = if status == "" then "active" else status

-- the membership that comes with a new user
unfoldable pub first_membership : UserView → CreateUserOptions → MembershipView
first_membership u opts = record {
  membership_id = opts.membership_id;
  user_id = u.user_id;
  company_id = opts.company_id;
  company_name = opts.company_id;
  status = or_active opts.membership_status;
}

-- once the login id is known to be free
unfoldable pub store_user : UserView → String → CreateUserOptions → Exec State UserView
unfolding first_membership
store_user u password_hash opts s =
    let m = first_membership u opts in
    let added = record s {
      users = insert u.user_id u s.users;
      users_by_login_id = insert u.login_id u.user_id s.users_by_login_id;
      password_hash_by_user_id = insert u.user_id password_hash s.password_hash_by_user_id;
    } in
    if opts.company_id == "" then (ok u, added) else (
      ok (record u {
        membership_id = m.membership_id;
        membership_status = m.status;
        company_id = m.company_id;
        company_name = m.company_name;
      }),
      record added { memberships = insert m.membership_id m s.memberships },
    )

-- `existingID, ok := r.usersByLoginID[u.LoginID]; ok && existingID != ""`
unfoldable pub is_taken : String → State → Bool
is_taken login_id s = elim (lookup login_id s.users_by_login_id) [
  | none ↦ false
  | some existing_id ↦ not (existing_id == "")
]

unfoldable pub create_user : UserView → String → CreateUserOptions → Exec State UserView
unfolding is_taken store_user
create_user u password_hash opts s =
    if is_taken u.login_id s
    then (err (new_http_error 409 state_conflict "login_id already exists"), s)
    else store_user u password_hash opts s

unfoldable pub create_membership : MembershipView → Exec State MembershipView
create_membership m s = (ok m, record s { memberships = insert m.membership_id m s.memberships })

abbrev pub no_membership : MembershipView
no_membership = record {
  membership_id = "";
  user_id = "";
  company_id = "";
  company_name = "";
  status = "";
}

-- A membership that is not there is written as the zero value with the status.
unfoldable pub update_membership_status : String → String → Exec State MembershipView
update_membership_status membership_id status s =
    let old = get_or no_membership membership_id s.memberships in
    (
      ok (record old { status = status }),
      record s {
        memberships = insert membership_id (record old { status = status }) s.memberships;
      },
    )

unfoldable pub delete_membership : String → Exec State (Unit {0})
delete_membership membership_id s =
    (ok tt, record s { memberships = erase membership_id s.memberships })

unfoldable pub memberships_of : String → Dict MembershipView → List MembershipView
memberships_of company_id [] = []
memberships_of company_id ((k, m) ∷ memberships) =
    let rest = memberships_of company_id memberships in
    if m.company_id == company_id then m ∷ rest else rest

unfoldable pub list_memberships_by_company : String → Exec State (List MembershipView)
unfolding memberships_of
list_memberships_by_company company_id s = (ok (memberships_of company_id s.memberships), s)

unfoldable pub add_set : Dict Set → String → String → Dict Set
add_set m k v = insert k (insert v tt (get_or [] k m)) m

unfoldable pub del_set : Dict Set → String → String → Dict Set
del_set m k v = elim (lookup k m) [ none ↦ m | some set ↦ insert k (erase v set) m ]

unfoldable pub names : Set → List String
names [] = []
names ((k, u) ∷ set) = k ∷ names set

unfoldable pub add_role : String → String → Exec State (Unit {0})
add_role membership_id role_id s =
    (ok tt, record s { roles_by_membership = add_set s.roles_by_membership membership_id role_id })

unfoldable pub remove_role : String → String → Exec State (Unit {0})
remove_role membership_id role_id s =
    (ok tt, record s { roles_by_membership = del_set s.roles_by_membership membership_id role_id })

unfoldable pub add_department : String → String → Exec State (Unit {0})
add_department membership_id department_id s = (
  ok tt,
  record s {
    departments_by_membership = add_set s.departments_by_membership membership_id department_id;
  },
)

unfoldable pub remove_department : String → String → Exec State (Unit {0})
remove_department membership_id department_id s = (
  ok tt,
  record s {
    departments_by_membership = del_set s.departments_by_membership membership_id department_id;
  },
)

unfoldable pub add_title : String → String → Exec State (Unit {0})
add_title membership_id title_id s = (
  ok tt,
  record s { titles_by_membership = add_set s.titles_by_membership membership_id title_id },
)

unfoldable pub remove_title : String → String → Exec State (Unit {0})
remove_title membership_id title_id s = (
  ok tt,
  record s { titles_by_membership = del_set s.titles_by_membership membership_id title_id },
)

unfoldable pub add_role_permission : String → String → Exec State (Unit {0})
add_role_permission role_id permission_id s = (
  ok tt,
  record s {
    role_permissions = add_set s.role_permissions role_id permission_id;
    permissions = insert permission_id tt s.permissions;
    roles = insert role_id tt s.roles;
  },
)

unfoldable pub remove_role_permission : String → String → Exec State (Unit {0})
remove_role_permission role_id permission_id s =
    (ok tt, record s { role_permissions = del_set s.role_permissions role_id permission_id })

unfoldable pub list_permissions : Exec State (List String)
list_permissions s = (ok (names s.permissions), s)

unfoldable pub list_roles : Exec State (List String)
list_roles s = (ok (names s.roles), s)

unfoldable pub add_resource_scope_rule : Fields → Exec State (Unit {0})
add_resource_scope_rule rule s =
    (ok tt, record s { resource_scope_rules = s.resource_scope_rules ++ rule ∷ [] })

unfoldable pub add_workflow_assignee_rule : Fields → Exec State (Unit {0})
add_workflow_assignee_rule rule s =
    (ok tt, record s { workflow_assignee_rules = s.workflow_assignee_rules ++ rule ∷ [] })

unfoldable pub add_notification_rule : Fields → Exec State (Unit {0})
add_notification_rule rule s =
    (ok tt, record s { notification_rules = s.notification_rules ++ rule ∷ [] })

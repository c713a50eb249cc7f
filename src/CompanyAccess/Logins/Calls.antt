-- ===== src/CompanyAccess/Logins/Calls.antt =====
-- The administrators' calls, as the service makes them, and sequences of them.
use cobo_iam_services.Base.{
  ℕ, ◌+◌, String, ◌≢◌, Bool, List, [], ◌∷◌, ◌==◌, ltb, Bool-cases, inl, inr,
}
use cobo_iam_services.Base.Results.{Result, Exec, lift, wrap, ◌>>=◌}
use cobo_iam_services.Base.Preserves.{Preserves, unless-Preserves, chain-Preserves, lift-Preserves}
use cobo_iam_services.GoText.{trim_space, to_lower, byte_length}
use cobo_iam_services.CompanyAccess.{
  CreateUserRequest, CreateMembershipRequest, UpdateMembershipRequest, DeleteMembershipRequest,
  LinkRequest, RolePermissionRequest, RuleRequest,
}
use cobo_iam_services.CompanyAccess.Repository.{State}
use cobo_iam_services.CompanyAccess.Admin
use cobo_iam_services.CompanyAccess.Admin.{
  Ports, authorize, has_permission, is_elsewhere, check_user, add_user, store_new_user, new_user,
  membership_uuid, target_company, target_status, options, next_uuid, bad_request,
}
use cobo_iam_services.CompanyAccess.Rules
use cobo_iam_services.CompanyAccess.Logins.{IsIndexed, create_user-IsIndexed}

pub data LinkKind : Type 0 where
  role department title : LinkKind

pub data RuleKind : Type 0 where
  resource_scope workflow_assignee notification : RuleKind

pub data Call : Type 0 where
  creates_user : CreateUserRequest → Call
  creates_membership : CreateMembershipRequest → Call
  updates_membership : UpdateMembershipRequest → Call
  deletes_membership : DeleteMembershipRequest → Call
  assigns removes : LinkKind → LinkRequest → Call
  assigns_permission removes_permission : RolePermissionRequest → Call
  creates_rule : RuleKind → RuleRequest → Call

-- No identifier of the generator is an empty text.
unfoldable pub IsFilled : (ℕ → String) → Type 0
IsFilled new_uuid = (n : ℕ) → new_uuid n ≢ ""

module _ (ports : Ports) where
  abbrev pub assign : LinkKind → LinkRequest → Exec State (Unit {0})
  assign role = Admin.assign_role ports
  assign department = Admin.assign_department ports
  assign title = Admin.assign_title ports

  abbrev pub remove : LinkKind → LinkRequest → Exec State (Unit {0})
  remove role = Admin.remove_role ports
  remove department = Admin.remove_department ports
  remove title = Admin.remove_title ports

  abbrev pub create_rule : RuleKind → RuleRequest → Exec State (Unit {0})
  create_rule resource_scope = Rules.create_resource_scope_rule ports
  create_rule workflow_assignee = Rules.create_workflow_assignee_rule ports
  create_rule notification = Rules.create_notification_rule ports

  abbrev pub after : Call → State → State
  after (creates_user req) s = (Admin.create_user ports req s).1
  after (creates_membership req) s = (Admin.create_membership ports req s).1
  after (updates_membership req) s = (Admin.update_membership ports req s).1
  after (deletes_membership req) s = (Admin.delete_membership ports req s).1
  after (assigns kind req) s = (assign kind req s).1
  after (removes kind req) s = (remove kind req s).1
  after (assigns_permission req) s = (Rules.assign_role_permission ports req s).1
  after (removes_permission req) s = (Rules.remove_role_permission ports req s).1
  after (creates_rule kind req) s = (create_rule kind req s).1

  unfoldable pub run : List Call → State → State
  run [] s = s
  run (c ∷ calls) s = run calls (after c s)

  pub next_uuid-IsIndexed {ℓ} :
      {A : Type ℓ} (f : String → Exec State A)
      → ((n : ℕ) → Preserves IsIndexed (f (ports.new_uuid n)))
      → Preserves IsIndexed (next_uuid ports >>= f)
  unfolding Preserves IsIndexed
  next_uuid-IsIndexed f keeps s indexed =
      keeps s.next_id (record s { next_id = s.next_id + 1 }) indexed

  membership_uuid-IsIndexed :
      (company_id : String) → Preserves IsIndexed (membership_uuid ports company_id)
  unfolding Preserves IsIndexed membership_uuid
  membership_uuid-IsIndexed company_id s indexed = elim (Bool-cases (company_id == "")) [
    | inl e ↦ rw (membership_uuid, e) indexed
    | inr e ↦ rw (membership_uuid, e) indexed
  ]

  add_user-IsIndexed :
      (web : Bool) (req : CreateUserRequest)
      → IsFilled ports.new_uuid
      → Preserves IsIndexed (add_user ports web req)
  unfolding add_user store_new_user new_user IsFilled
  add_user-IsIndexed web req filled =
      lift-Preserves IsIndexed (wrap "hash password" (ports.hash_password req.password)) _ λ hash.
        next_uuid-IsIndexed (store_new_user ports web req hash) λ n.
          chain-Preserves IsIndexed (membership_uuid ports (target_company ports web req)) _
            (membership_uuid-IsIndexed (target_company ports web req))
            λ membership_id.
              create_user-IsIndexed (new_user ports req (ports.new_uuid n)) hash
                (options ports (target_company ports web req) (target_status ports web req)
                  membership_id)
                (filled n)

  check_user-IsIndexed :
      (web : Bool) (req : CreateUserRequest)
      → IsFilled ports.new_uuid
      → Preserves IsIndexed (check_user ports web req)
  unfolding check_user
  check_user-IsIndexed web req filled =
      unless-Preserves IsIndexed (is_elsewhere ports web req) _ _ (
        unless-Preserves IsIndexed (to_lower (trim_space req.login_id) == "") _ _ (
          unless-Preserves IsIndexed (trim_space req.full_name == "") _ _ (
            unless-Preserves IsIndexed (ltb (byte_length req.password) 8) _ _
              (add_user-IsIndexed web req filled))))

  pub created-IsIndexed :
      (req : CreateUserRequest)
      → IsFilled ports.new_uuid
      → Preserves IsIndexed (Admin.create_user ports req)
  unfolding Admin.create_user
  created-IsIndexed req filled =
      lift-Preserves IsIndexed
        (authorize ports req.subject "admin.membership.create" req.subject.company_id) _
        λ u.
          lift-Preserves IsIndexed (has_permission ports req.subject "rbac.manage") _
            λ web. check_user-IsIndexed web req filled

  -- The other calls leave the users alone.
  pub granted-IsIndexed {ℓ} :
      {A : Type ℓ} (r : Result (Unit {0})) (m : Exec State A)
      → Preserves IsIndexed m
      → Preserves IsIndexed (lift r >>= λ u. m)
  granted-IsIndexed r m keeps = lift-Preserves IsIndexed r _ λ u. keeps

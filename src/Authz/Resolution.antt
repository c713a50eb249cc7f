-- ===== src/Authz/Resolution.antt =====
-- internal/authorization/infra/inmemory/resolver.go over the read port of contracts.go.
use cobo_iam_services.Base.{String, ◌≡◌, Bool, ◌&&◌, not, List, arith, is_empty, if◌then◌else◌}
use cobo_iam_services.Base.Results.{Result, ok}
use cobo_iam_services.Base.Fallible.{◌>>=◌}
use cobo_iam_services.Authz.{
  EffectiveAccessSummary, DepartmentScope, ResourceAssignment, ActionPolicy, Resolver,
}
use cobo_iam_services.Authz.Checker.{contains}

-- The port `Repository`; each method takes a membership and a company.
pub record Repository : Type 0 where
  pub list_permission_codes : String → String → Result (List String)
  pub list_department_scopes : String → String → Result (List DepartmentScope)
  pub list_assignments : String → String → Result (List ResourceAssignment)
  pub list_responsibilities : String → String → Result (List String)
  pub list_position_codes : String → String → Result (List String)
  pub list_org_unit_ids : String → String → Result (List String)
  pub list_org_subtree_unit_ids : String → String → Result (List String)
  pub get_action_policy : String → String → Result ActionPolicy

-- `has` of resolver.go has the clauses of the checker's `contains`.
abbrev has : List String → String → Bool
has = contains

abbrev scope_type_of : Bool → List DepartmentScope → List ResourceAssignment → String
scope_type_of has_company_wide deps assigns =
    if has_company_wide
    then "company_wide"
    else if not (is_empty deps && is_empty assigns)
    then "mixed"
    else "none"

unfoldable pub resolve : Repository → String → String → Result EffectiveAccessSummary
resolve repo membership_id company_id = do
  permissions ← repo.list_permission_codes membership_id company_id
  deps ← repo.list_department_scopes membership_id company_id
  assigns ← repo.list_assignments membership_id company_id
  resp ← repo.list_responsibilities membership_id company_id
  positions ← repo.list_position_codes membership_id company_id
  org_units ← repo.list_org_unit_ids membership_id company_id
  org_subtrees ← repo.list_org_subtree_unit_ids membership_id company_id
  let has_company_wide = has permissions "company_wide_access"
  ok (record {
    company_id = company_id;
    membership_id = membership_id;
    permissions = permissions;
    data_scope = record {
      scope_type = scope_type_of has_company_wide deps assigns;
      departments = deps;
      record_assignments = assigns;
      has_company_wide_access = has_company_wide;
      org_unit_ids = org_units;
      org_subtree_unit_ids = org_subtrees;
      position_codes = positions;
    };
    responsibilities = resp;
  })

abbrev pub new_resolver : Repository → Resolver
new_resolver repo = record { resolve = resolve repo }

-- A resolved summary is that of the membership and the company that were asked for.
pub record IsAbout (membership_id company_id : String) (eff : EffectiveAccessSummary) : Type 0 where
  pub membership : eff.membership_id ≡ membership_id
  pub company : eff.company_id ≡ company_id

-- A summary that is resolved is that of the membership and the company that were asked for.
pub resolve-IsAbout :
    (repo : Repository) (membership_id company_id : String) (eff : EffectiveAccessSummary)
    → resolve repo membership_id company_id ≡ ok eff
    → IsAbout membership_id company_id eff
unfolding resolve
resolve-IsAbout repo m c eff h = ground arith

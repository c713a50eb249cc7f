-- ===== src/Authz.antt =====
-- internal/authorization/app/contracts.go: the requests, decisions and read models that the
-- authorization service, its checker and its resolver exchange.
pub mod Checker
pub mod Resolution
pub mod Service
pub mod Store
pub mod Cache
pub mod Client
mod Tests
use cobo_iam_services.Base.{String, ◌≡◌, Bool, Option, none, some, List}
use cobo_iam_services.Base.Results.{Code, Result}
use cobo_iam_services.Dict.{Dict, lookup}

pub data Decision : Type 0 where
  allow deny : Decision

pub record SubjectRef : Type 0 where
  pub user_id : String
  pub membership_id : String
  pub company_id : String

-- A value of a `map[string]any`: the authorization code asks only whether it is a string.
pub data Attribute : Type 0 where
  text : String → Attribute
  other : Attribute

pub record ResourceRef : Type 0 where
  pub type : String
  pub id : String
  pub attributes : Dict Attribute

-- `s, _ := attributes[k].(string)`
abbrev as_text : Option Attribute → String
as_text none = ""
as_text (some other) = ""
as_text (some (text s)) = s

unfoldable pub string_attribute : String → Dict Attribute → String
unfolding lookup
string_attribute k attributes = as_text (lookup k attributes)

pub record AuthorizeRequest : Type 0 where
  pub subject : SubjectRef
  pub action : String
  pub resource : ResourceRef

pub record AuthorizeDecision : Type 0 where
  pub decision : Decision
  pub matched_permissions : List String
  pub scope_reasons : List String
  pub responsibility_reasons : List String
  pub deny_reason_code : Option Code

pub record AuthorizeBatchCheck : Type 0 where
  pub action : String
  pub resource : ResourceRef

pub record AuthorizeBatchRequest : Type 0 where
  pub subject : SubjectRef
  pub checks : List AuthorizeBatchCheck

pub record DepartmentScope : Type 0 where
  pub department_id : String
  pub department_name : String

pub record ResourceAssignment : Type 0 where
  pub resource_type : String
  pub resource_id : String

pub record EffectiveDataScope : Type 0 where
  pub scope_type : String
  pub departments : List DepartmentScope
  pub record_assignments : List ResourceAssignment
  pub has_company_wide_access : Bool
  pub org_unit_ids : List String
  pub org_subtree_unit_ids : List String
  pub position_codes : List String

pub record EffectiveAccessSummary : Type 0 where
  pub company_id : String
  pub membership_id : String
  pub permissions : List String
  pub data_scope : EffectiveDataScope
  pub responsibilities : List String

pub record ActionPolicy : Type 0 where
  pub action_code : String
  pub required_permission : String
  pub scope_type : String
  pub workflow_state : String
  pub eligible_actor : String
  pub effect_type : String
  pub deny_reason_code : String

-- The ports: what the service asks of a resolver and of a policy repository.
pub record Resolver : Type 0 where
  pub resolve : String → String → Result EffectiveAccessSummary

pub record PolicyRepository : Type 0 where
  pub get_action_policy : String → String → Result ActionPolicy

-- The service as its clients see it: `Authorize` and `GetEffectiveAccess`.
pub record AuthService : Type 0 where
  pub authorize : AuthorizeRequest → Result AuthorizeDecision
  pub get_effective_access : String → String → Result EffectiveAccessSummary

-- ===== src/Authz/Checker/Permits.antt =====
-- What a policy permits, stated without the checker's loops and guards, and the loops against it.
use cobo_iam_services.Base.{
  String, ◌≡◌, ◌≢◌, ◌⊎◌, inl, inr, true, ◌&&◌, List, [], ◌∷◌, arith, ◌==◌, eq_iff, Some, first,
  later, Bool-cases,
}
use cobo_iam_services.GoText.{equal_fold, trim_space, to_lower}
use cobo_iam_services.Authz.{
  AuthorizeRequest, EffectiveAccessSummary, ActionPolicy, DepartmentScope, ResourceAssignment,
  string_attribute,
}
use cobo_iam_services.Authz.Checker.{
  contains, contains_department, contains_assignment, is_approval,
}
use cobo_iam_services.Authz.Checker.Parts.{Parts}

-- `t` is one of the items, letter case aside.
abbrev pub Listed : String → List String → Type 0
Listed t = Some (λ it. equal_fold it t ≡ true)

abbrev pub HasDepartment : String → List DepartmentScope → Type 0
HasDepartment d = Some (λ it. it.department_id ≡ d)

abbrev pub HasAssignment : String → String → List ResourceAssignment → Type 0
HasAssignment t i = Some (λ it. (it.resource_type ≡ t) × (it.resource_id ≡ i))

module _ (req : AuthorizeRequest) (eff : EffectiveAccessSummary) where
  -- One part of a scope type lets the request through.
  pub data PartAllows (p : String) : Type 0 where
    assigned :
        p ≡ "assigned_only"
        → HasAssignment req.resource.type req.resource.id eff.data_scope.record_assignments
        → PartAllows p
    owned :
        p ≡ "owner_only"
        → string_attribute "owner_membership_id" req.resource.attributes ≢ ""
        → equal_fold
            (string_attribute "owner_membership_id" req.resource.attributes)
            eff.membership_id
          ≡ true
        → PartAllows p
    in_unit :
        p ≡ "org_unit_self"
        → string_attribute "org_unit_id" req.resource.attributes ≢ ""
        → Listed
            (string_attribute "org_unit_id" req.resource.attributes)
            eff.data_scope.org_unit_ids
        → PartAllows p
    in_subtree :
        p ≡ "org_unit_subtree"
        → string_attribute "org_unit_id" req.resource.attributes ≢ ""
        → Listed
            (string_attribute "org_unit_id" req.resource.attributes)
            eff.data_scope.org_subtree_unit_ids
        → PartAllows p
    in_department :
        (p ≡ "org_unit_self") ⊎ (p ≡ "org_unit_subtree")
        → string_attribute "department_id" req.resource.attributes ≢ ""
        → HasDepartment
            (string_attribute "department_id" req.resource.attributes)
            eff.data_scope.departments
        → PartAllows p
    anything : p ≡ "*" → PartAllows p

  pub data InScope (policy : ActionPolicy) : Type 0 where
    company_wide : eff.data_scope.has_company_wide_access ≡ true → InScope policy
    unrestricted : Parts policy.scope_type [] → InScope policy
    by_part :
        {parts : List String}
        → Parts policy.scope_type parts
        → Some PartAllows parts
        → InScope policy

module _ (req : AuthorizeRequest) (policy : ActionPolicy) where
  abbrev pub requested_state : String
  requested_state = trim_space (string_attribute "workflow_state" req.resource.attributes)

  -- The resource names no state, or one that the policy lists.
  abbrev pub InState : Type 0
  InState =
      (parts : List String) × Parts policy.workflow_state parts
      × ((parts ≡ []) ⊎ Listed "*" parts ⊎ (requested_state ≡ "") ⊎ Listed requested_state parts)

abbrev pub IsActor : EffectiveAccessSummary → String → Type 0
IsActor eff p =
    Listed (to_lower p) eff.data_scope.position_codes ⊎ Listed (to_lower p) eff.responsibilities

module _ (eff : EffectiveAccessSummary) (policy : ActionPolicy) where
  -- The membership has a position or a responsibility that the policy lists.
  abbrev pub IsEligible : Type 0
  IsEligible =
      (parts : List String) × Parts policy.eligible_actor parts
      × ((parts ≡ []) ⊎ Listed "*" parts ⊎ Some (IsActor eff) parts)

module _ (req : AuthorizeRequest) (eff : EffectiveAccessSummary) (policy : ActionPolicy) where
  pub record IsMember : Type 0 where
    pub same_company : req.subject.company_id ≡ eff.company_id
    pub same_membership : req.subject.membership_id ≡ eff.membership_id

  pub record HasPermission : Type 0 where
    pub named : trim_space policy.required_permission ≢ ""
    pub held : Listed (trim_space policy.required_permission) eff.permissions

  -- Who may act: an eligible actor, who is an approver where the action is an approval.
  pub record IsResponsible : Type 0 where
    pub eligible : IsEligible eff policy
    pub approver :
        is_approval req.action ≡ true → Listed "workflow_approver:disclosure" eff.responsibilities

  pub record Permits : Type 0 where
    pub member : IsMember
    pub permission : HasPermission
    pub scope : InScope req eff policy
    pub state : InState req policy
    pub responsible : IsResponsible

-- The loops decide membership.
module _ (t : String) where
  pub contains_sound : (items : List String) → contains items t ≡ true → Listed t items
  unfolding contains
  contains_sound [] h = cc
  contains_sound (it ∷ items) h = elim (Bool-cases (equal_fold it t)) [
    | inl e ↦ first e
    | inr e ↦ later (contains_sound items (rw e at h))
  ]

  pub contains_complete : (items : List String) → Listed t items → contains items t ≡ true
  unfolding contains
  contains_complete [] m = elim m [ ]
  contains_complete (it ∷ items) (first e) = rw e
  contains_complete (it ∷ items) (later m) = ground (arith, contains_complete items m)

  pub department_sound :
      (items : List DepartmentScope) → contains_department items t ≡ true → HasDepartment t items
  unfolding contains_department
  department_sound [] h = cc
  department_sound (it ∷ items) h = elim (Bool-cases (it.department_id == t)) [
    | inl e ↦ first ((eq_iff _ _).0 e)
    | inr e ↦ later (department_sound items (rw e at h))
  ]

  pub department_complete :
      (items : List DepartmentScope) → HasDepartment t items → contains_department items t ≡ true
  unfolding contains_department
  department_complete [] m = elim m [ ]
  department_complete (it ∷ items) (first e) = rw ((eq_iff it.department_id t).1 e)
  department_complete (it ∷ items) (later m) = ground (arith, department_complete items m)

module _ (t i : String) where
  pub assignment_sound :
      (items : List ResourceAssignment)
      → contains_assignment items t i ≡ true
      → HasAssignment t i items
  unfolding contains_assignment
  assignment_sound [] h = cc
  assignment_sound (it ∷ items) h =
      elim (Bool-cases (it.resource_type == t && it.resource_id == i)) [
        | inl e ↦ first (
          ground (arith, eq_iff it.resource_type t, eq_iff it.resource_id i),
          ground (arith, eq_iff it.resource_type t, eq_iff it.resource_id i),
        )
        | inr e ↦ later (assignment_sound items (rw e at h))
      ]

  pub assignment_complete :
      (items : List ResourceAssignment)
      → HasAssignment t i items
      → contains_assignment items t i ≡ true
  unfolding contains_assignment
  assignment_complete [] m = elim m [ ]
  assignment_complete (it ∷ items) (first (e, f)) =
      rw ((eq_iff it.resource_type t).1 e, (eq_iff it.resource_id i).1 f)
  assignment_complete (it ∷ items) (later m) = ground (arith, assignment_complete items m)

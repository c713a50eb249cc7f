-- ===== src/Authz/Checker/Scope.antt =====
-- `evalScope` lets a request through exactly when it is in scope.
use cobo_iam_services.Base.{
  String, ◌≡◌, ◌≢◌, refl, sym, subst, ◌⊎◌, inl, inr, true, false, ◌++◌, List, [], ◌∷◌, arith, ◌==◌,
  eq_iff, Some, first, later, is_empty, Bool-cases,
}
use cobo_iam_services.Authz.{
  AuthorizeRequest, EffectiveAccessSummary, ActionPolicy, string_attribute,
}
use cobo_iam_services.Authz.Checker.{
  contains, contains_department, split_or_star, part_reasons, scope_loop, eval_scope,
  assigned_reason, owner_reason, org_unit_reason, department_reason,
}
use cobo_iam_services.Authz.Checker.Parts.{Parts, split_or_star-Parts, Parts-split_or_star}
use cobo_iam_services.Authz.Checker.Permits.{
  PartAllows, InScope, assigned, owned, in_unit, in_subtree, in_department, anything, company_wide,
  unrestricted, by_part, contains_sound, contains_complete, department_sound, department_complete,
  assignment_sound, assignment_complete,
}

append_nonempty :
    (xs ys : List String)
    → is_empty (xs ++ ys) ≡ false
    → (is_empty xs ≡ false) ⊎ (is_empty ys ≡ false)
append_nonempty [] ys h = inr h
append_nonempty (x ∷ xs) ys h = inl refl

left_nonempty : (xs ys : List String) → is_empty xs ≡ false → is_empty (xs ++ ys) ≡ false
left_nonempty [] ys h = cc
left_nonempty (x ∷ xs) ys h = refl

right_nonempty : (xs ys : List String) → is_empty ys ≡ false → is_empty (xs ++ ys) ≡ false
right_nonempty [] ys h = h
right_nonempty (x ∷ xs) ys h = refl

pub is_empty-nil : (xs : List String) → is_empty xs ≡ true → xs ≡ []
is_empty-nil [] h = refl
is_empty-nil (x ∷ xs) h = cc

pub text_cases : (s t : String) → (s ≡ t) ⊎ (s ≢ t)
text_cases s t = elim (Bool-cases (s == t)) [
  | inl e ↦ inl ((eq_iff s t).0 e)
  | inr n ↦ inr (λ e. ground (arith, eq_iff s t))
]

module _ (req : AuthorizeRequest) (eff : EffectiveAccessSummary) where
  abbrev owner_id : String
  owner_id = string_attribute "owner_membership_id" req.resource.attributes

  abbrev unit_id : String
  unit_id = string_attribute "org_unit_id" req.resource.attributes

  abbrev dep_id : String
  dep_id = string_attribute "department_id" req.resource.attributes

  department_allows :
      (p : String)
      → (p ≡ "org_unit_self") ⊎ (p ≡ "org_unit_subtree")
      → is_empty (department_reason req eff) ≡ false
      → PartAllows req eff p
  department_allows p e h =
      in_department e (ground (arith, eq_iff dep_id ""))
        (department_sound dep_id eff.data_scope.departments (ground arith))

  self_holds :
      is_empty (org_unit_reason req eff "org_unit_self") ≡ false
      → contains eff.data_scope.org_unit_ids unit_id ≡ true
  self_holds h = ground arith

  subtree_holds :
      is_empty (org_unit_reason req eff "org_unit_subtree") ≡ false
      → contains eff.data_scope.org_subtree_unit_ids unit_id ≡ true
  subtree_holds h = ground arith

  unit_allows :
      (p : String)
      → (p ≡ "org_unit_self") ⊎ (p ≡ "org_unit_subtree")
      → is_empty (org_unit_reason req eff p) ≡ false
      → PartAllows req eff p
  unit_allows p (inl e) h =
      in_unit e (ground (arith, eq_iff unit_id ""))
        (contains_sound unit_id _ (self_holds (rw e at h)))
  unit_allows p (inr e) h =
      in_subtree e (ground (arith, eq_iff unit_id ""))
        (contains_sound unit_id _ (subtree_holds (rw e at h)))

  unit_or_department :
      (p : String)
      → (p ≡ "org_unit_self") ⊎ (p ≡ "org_unit_subtree")
      → is_empty (org_unit_reason req eff p ++ department_reason req eff) ≡ false
      → PartAllows req eff p
  unit_or_department p e h = elim (append_nonempty (org_unit_reason req eff p) _ h) [
    | inl u ↦ unit_allows p e u
    | inr d ↦ department_allows p e d
  ]

  assigned_allows :
      (p : String)
      → p ≡ "assigned_only"
      → is_empty (assigned_reason req eff) ≡ false
      → PartAllows req eff p
  assigned_allows p e h = assigned e (assignment_sound _ _ _ (ground arith))

  owner_allows :
      (p : String)
      → p ≡ "owner_only"
      → is_empty (owner_reason req eff) ≡ false
      → PartAllows req eff p
  owner_allows p e h = owned e (ground (arith, eq_iff owner_id "")) (ground arith)

  reasons_unit :
      (p : String)
      → (p ≡ "org_unit_self") ⊎ (p ≡ "org_unit_subtree")
      → part_reasons req eff p ≡ org_unit_reason req eff p ++ department_reason req eff
  unfolding part_reasons
  reasons_unit p (inl e) = rw e
  reasons_unit p (inr e) = rw e

  any_part_sound :
      (p : String)
      → p ≢ "assigned_only"
      → p ≢ "owner_only"
      → p ≢ "org_unit_self"
      → p ≢ "org_unit_subtree"
      → is_empty (part_reasons req eff p) ≡ false
      → p ≡ "*"
  unfolding part_reasons
  any_part_sound p n1 n2 n3 n4 h = ground (
    arith,
    eq_iff p "assigned_only",
    eq_iff p "owner_only",
    eq_iff p "org_unit_self",
    eq_iff p "org_unit_subtree",
    eq_iff p "*",
  )

  part_sound : (p : String) → is_empty (part_reasons req eff p) ≡ false → PartAllows req eff p
  part_sound p h = elim (text_cases p "assigned_only") [
    | inl e ↦ assigned_allows p e (unfold part_reasons in rw e at h)
    | inr n1 ↦ elim (text_cases p "owner_only") [
      | inl e ↦ owner_allows p e (unfold part_reasons in rw e at h)
      | inr n2 ↦ elim (text_cases p "org_unit_self") [
        | inl e ↦ unit_or_department p (inl e) (rw (reasons_unit p (inl e)) at h)
        | inr n3 ↦ elim (text_cases p "org_unit_subtree") [
          | inl e ↦ unit_or_department p (inr e) (rw (reasons_unit p (inr e)) at h)
          | inr n4 ↦ anything (any_part_sound p n1 n2 n3 n4 h)
        ]
      ]
    ]
  ]

  department_nonempty :
      dep_id ≢ ""
      → contains_department eff.data_scope.departments dep_id ≡ true
      → is_empty (department_reason req eff) ≡ false
  department_nonempty n h = ground (arith, eq_iff dep_id "")

  part_complete : (p : String) → PartAllows req eff p → is_empty (part_reasons req eff p) ≡ false
  part_complete p (assigned e a) =
      let h = assignment_complete _ _ _ a in unfold part_reasons in rw e (ground (arith, h))
  part_complete p (owned e n h) = unfold part_reasons in rw e (ground (arith, eq_iff owner_id ""))
  part_complete p (in_unit e n l) =
      let h = contains_complete _ _ l in
      unfold part_reasons in rw e (ground (arith, h, eq_iff unit_id ""))
  part_complete p (in_subtree e n l) =
      let h = contains_complete _ _ l in
      unfold part_reasons in rw e (ground (arith, h, eq_iff unit_id ""))
  part_complete p (in_department e n d) = rw (reasons_unit p e) (
      right_nonempty (org_unit_reason req eff p) _
        (department_nonempty n (department_complete _ _ d)))
  part_complete p (anything e) = unfold part_reasons in rw e

  loop_sound :
      (parts : List String)
      → is_empty (scope_loop req eff parts) ≡ false
      → Some (PartAllows req eff) parts
  unfolding scope_loop
  loop_sound [] h = cc
  loop_sound (p ∷ parts) h = elim (append_nonempty (part_reasons req eff p) _ h) [
    | inl a ↦ first (part_sound p a)
    | inr b ↦ later (loop_sound parts b)
  ]

  loop_complete :
      (parts : List String)
      → Some (PartAllows req eff) parts
      → is_empty (scope_loop req eff parts) ≡ false
  unfolding scope_loop
  loop_complete [] s = elim s [ ]
  loop_complete (p ∷ parts) (first a) = left_nonempty _ _ (part_complete p a)
  loop_complete (p ∷ parts) (later s) = right_nonempty _ _ (loop_complete parts s)

module _ (req : AuthorizeRequest) (eff : EffectiveAccessSummary) (policy : ActionPolicy) where
  pub scope_sound : (eval_scope req eff policy).1 ≡ true → InScope req eff policy
  scope_sound h = elim (Bool-cases eff.data_scope.has_company_wide_access) [
    | inl w ↦ company_wide w
    | inr n ↦ elim (Bool-cases (is_empty (split_or_star policy.scope_type))) [
      | inl e ↦ unrestricted (
          subst (λ l. Parts policy.scope_type l) (is_empty-nil _ e)
            (split_or_star-Parts policy.scope_type))
      | inr m ↦
          by_part (split_or_star-Parts policy.scope_type)
            (loop_sound req eff _ (unfold eval_scope in ground arith))
    ]
  ]

  pub scope_complete : InScope req eff policy → (eval_scope req eff policy).1 ≡ true
  unfolding eval_scope
  scope_complete (company_wide w) = rw w
  scope_complete (unrestricted is) =
      let e = sym (Parts-split_or_star policy.scope_type [] is) in ground (arith, e)
  scope_complete (by_part {parts = parts} is s) =
      let e = sym (Parts-split_or_star policy.scope_type parts is) in
      ground (arith, e, loop_complete req eff parts s)

-- ===== src/Authz/Checker/Monotone.antt =====
-- More access never turns an allowed request into a denied one.
use cobo_iam_services.Base.{
  String, ◌≡◌, ◌∙◌, true, inl, inr, List, Some, first, later, In, Some-of-In, In-of-Some,
}
use cobo_iam_services.Authz.{AuthorizeRequest, EffectiveAccessSummary, ActionPolicy, allow}
use cobo_iam_services.Authz.Checker.{check}
use cobo_iam_services.Authz.Checker.Permits.{
  PartAllows, InScope, assigned, owned, in_unit, in_subtree, in_department, anything, company_wide,
  unrestricted, by_part, IsEligible, IsActor, Permits,
}
use cobo_iam_services.Authz.Checker.Decides.{check-allow_iff}

abbrev Subset : {A : Type 0} → List A → List A → Type 0
Subset {A} xs ys = (a : A) → In a xs → In a ys

Some-mono : {A : Type 0} (P : A → Type 0) {xs ys : List A} → Subset xs ys → Some P xs → Some P ys
Some-mono P sub s = let (x, m, p) = In-of-Some s in Some-of-In (sub x m) p

Some-map :
    {A : Type 0} {P Q : A → Type 0} {xs : List A} → ((a : A) → P a → Q a) → Some P xs → Some Q xs
Some-map f (first p) = first (f _ p)
Some-map f (later s) = later (Some-map f s)

-- The second access has everything that the first has, for the same membership.
pub record Extends (eff eff' : EffectiveAccessSummary) : Type 0 where
  pub company : eff.company_id ≡ eff'.company_id
  pub membership : eff.membership_id ≡ eff'.membership_id
  pub permissions : Subset eff.permissions eff'.permissions
  pub responsibilities : Subset eff.responsibilities eff'.responsibilities
  pub positions : Subset eff.data_scope.position_codes eff'.data_scope.position_codes
  pub departments : Subset eff.data_scope.departments eff'.data_scope.departments
  pub assignments : Subset eff.data_scope.record_assignments eff'.data_scope.record_assignments
  pub org_units : Subset eff.data_scope.org_unit_ids eff'.data_scope.org_unit_ids
  pub org_subtrees : Subset eff.data_scope.org_subtree_unit_ids eff'.data_scope.org_subtree_unit_ids
  pub company_wide_access :
      eff.data_scope.has_company_wide_access ≡ true → eff'.data_scope.has_company_wide_access ≡ true

module _ (req : AuthorizeRequest) (policy : ActionPolicy) (eff eff' : EffectiveAccessSummary)
    (e : Extends eff eff') where
  PartAllows-mono : (p : String) → PartAllows req eff p → PartAllows req eff' p
  PartAllows-mono p (assigned q a) = assigned q (Some-mono _ e.assignments a)
  PartAllows-mono p (owned q n f) = owned q n (rw e.membership at f)
  PartAllows-mono p (in_unit q n l) = in_unit q n (Some-mono _ e.org_units l)
  PartAllows-mono p (in_subtree q n l) = in_subtree q n (Some-mono _ e.org_subtrees l)
  PartAllows-mono p (in_department q n d) = in_department q n (Some-mono _ e.departments d)
  PartAllows-mono p (anything q) = anything q

  InScope-mono : InScope req eff policy → InScope req eff' policy
  InScope-mono (company_wide w) = company_wide (e.company_wide_access w)
  InScope-mono (unrestricted q) = unrestricted q
  InScope-mono (by_part is s) = by_part is (Some-map PartAllows-mono s)

  IsActor-mono : (p : String) → IsActor eff p → IsActor eff' p
  IsActor-mono p (inl l) = inl (Some-mono _ e.positions l)
  IsActor-mono p (inr l) = inr (Some-mono _ e.responsibilities l)

  IsEligible-mono : IsEligible eff policy → IsEligible eff' policy
  IsEligible-mono (parts, is, inl q) = (parts, is, inl q)
  IsEligible-mono (parts, is, inr (inl l)) = (parts, is, inr (inl l))
  IsEligible-mono (parts, is, inr (inr s)) = (parts, is, inr (inr (Some-map IsActor-mono s)))

  Permits-mono : Permits req eff policy → Permits req eff' policy
  Permits-mono p = record {
    member = record {
      same_company = p.member.same_company ∙ e.company;
      same_membership = p.member.same_membership ∙ e.membership;
    };
    permission = record {
      named = p.permission.named;
      held = Some-mono _ e.permissions p.permission.held;
    };
    scope = InScope-mono p.scope;
    state = p.state;
    responsible = record {
      eligible = IsEligible-mono p.responsible.eligible;
      approver = λ a. Some-mono _ e.responsibilities (p.responsible.approver a);
    };
  }

-- If a request is allowed for one access, it is allowed for any access of the same membership that
-- has at least the same permissions, responsibilities, positions, departments, assignments,
-- organisation units and company-wide flag.
pub check_mono :
    (req : AuthorizeRequest) (policy : ActionPolicy) (eff eff' : EffectiveAccessSummary)
    → Extends eff eff'
    → (check req eff policy).decision ≡ allow
    → (check req eff' policy).decision ≡ allow
check_mono req policy eff eff' e h =
    (check-allow_iff req eff' policy).1
      (Permits-mono req policy eff eff' e ((check-allow_iff req eff policy).0 h))

-- ===== src/Authz/Checker/Decides.antt =====
-- The decision and the code of a denial, against what the policy permits.
use cobo_iam_services.Base.{
  String, ◌≡◌, subst, ◌⊎◌, inl, inr, Bool, true, false, not, ◌&&◌, ◌||◌, List, [], ◌∷◌, some, arith,
  ◌==◌, eq_iff, Some, first, later, is_empty, Bool-cases, ◌↔◌,
}
use cobo_iam_services.Base.Results.{
  Code, company_scope_mismatch, permission_denied, data_scope_denied, state_conflict,
  responsibility_required,
}
use cobo_iam_services.GoText.{trim_space, to_lower}
use cobo_iam_services.Authz.{AuthorizeRequest, EffectiveAccessSummary, ActionPolicy, allow, deny}
use cobo_iam_services.Authz.Checker.{
  contains, split_or_star, eval_scope, eval_workflow_state, eval_eligible_actor, actor_loop,
  is_approval, check,
}
use cobo_iam_services.Authz.Checker.Parts.{Parts, split_or_star-Parts, Parts-split_or_star}
use cobo_iam_services.Authz.Checker.Permits.{
  Listed, InScope, InState, IsActor, IsEligible, IsMember, HasPermission, IsResponsible, Permits,
  requested_state, contains_sound, contains_complete,
}
use cobo_iam_services.Authz.Checker.Scope.{scope_sound, scope_complete, is_empty-nil}

-- A test decides a statement.
record Reflects (b : Bool) (P : Type 0) : Type 0 where
  sound : b ≡ true → P
  complete : P → b ≡ true

excludes : {b : Bool} {P : Type 0} → Reflects b P → b ≡ false → ¬ P
excludes r n p = cc (n, r.complete p)

module _ {b c : Bool} {P Q : Type 0} (r : Reflects b P) (t : Reflects c Q) where
  Reflects-or : Reflects (b || c) (P ⊎ Q)
  Reflects-or = record {
    sound =
        λ h. elim (Bool-cases b) [ inl e ↦ inl (r.sound e) | inr n ↦ inr (t.sound (rw n at h)) ];
    complete = elim [
      | inl p ↦ let e = r.complete p in ground (arith, e)
      | inr q ↦ let e = t.complete q in ground (arith, e)
    ];
  }

Reflects-nil : (xs : List String) → Reflects (is_empty xs) (xs ≡ [])
Reflects-nil xs = record { sound = is_empty-nil xs; complete = λ e. rw e }

Reflects-eq : (s t : String) → Reflects (s == t) (s ≡ t)
Reflects-eq s t = record { sound = (eq_iff s t).0; complete = (eq_iff s t).1 }

Reflects-contains :
    (items : List String) (t : String) → Reflects (contains items t) (Listed t items)
Reflects-contains items t = record {
  sound = contains_sound t items;
  complete = contains_complete t items;
}

-- What is decided of the parts that are computed is decided of the parts.
Reflects-Parts :
    (raw : String) {b : Bool} (P : List String → Type 0)
    → Reflects b (P (split_or_star raw))
    → Reflects b ((parts : List String) × Parts raw parts × P parts)
Reflects-Parts raw P r = record {
  sound = λ h. (split_or_star raw, split_or_star-Parts raw, r.sound h);
  complete = λ (parts, is, p). r.complete (subst P (Parts-split_or_star raw parts is) p);
}

module _ (eff : EffectiveAccessSummary) where
  actors_sound : (parts : List String) → actor_loop eff parts ≡ true → Some (IsActor eff) parts
  unfolding actor_loop
  actors_sound [] h = cc
  actors_sound (p ∷ parts) h =
      elim (Bool-cases (contains eff.data_scope.position_codes (to_lower p))) [
        | inl e ↦ first (inl (contains_sound _ _ e))
        | inr n ↦ elim (Bool-cases (contains eff.responsibilities (to_lower p))) [
          | inl e ↦ first (inr (contains_sound _ _ e))
          | inr m ↦ later (actors_sound parts (rw (n, m) at h))
        ]
      ]

  actors_complete : (parts : List String) → Some (IsActor eff) parts → actor_loop eff parts ≡ true
  unfolding actor_loop
  actors_complete [] s = elim s [ ]
  actors_complete (p ∷ parts) (first (inl l)) = rw (contains_complete _ _ l)
  actors_complete (p ∷ parts) (first (inr l)) = let e = contains_complete _ _ l in ground (arith, e)
  actors_complete (p ∷ parts) (later s) = ground (arith, actors_complete parts s)

module _ (req : AuthorizeRequest) (eff : EffectiveAccessSummary) (policy : ActionPolicy) where
  abbrev required : String
  required = trim_space policy.required_permission

  abbrev is_member : Bool
  is_member =
      req.subject.company_id == eff.company_id && req.subject.membership_id == eff.membership_id

  abbrev has_permission : Bool
  has_permission = not (required == "") && contains eff.permissions required

  abbrev is_responsible : Bool
  is_responsible =
      eval_eligible_actor eff policy
      && (not (is_approval req.action)
          || contains eff.responsibilities "workflow_approver:disclosure")

  member_Reflects : Reflects is_member (IsMember req eff policy)
  member_Reflects = record {
    sound = λ h. ground (
      arith,
      eq_iff req.subject.company_id eff.company_id,
      eq_iff req.subject.membership_id eff.membership_id,
    );
    complete = λ m. ground (
      arith,
      eq_iff req.subject.company_id eff.company_id,
      eq_iff req.subject.membership_id eff.membership_id,
    );
  }

  permission_Reflects : Reflects has_permission (HasPermission req eff policy)
  permission_Reflects = record {
    sound = λ h. record {
      named = λ e. ground (arith, eq_iff required "");
      held = contains_sound _ _ (ground arith);
    };
    complete =
        λ m. let c = contains_complete _ _ m.held in ground (arith, c, m.named, eq_iff required "");
  }

  scope_Reflects : Reflects (eval_scope req eff policy).1 (InScope req eff policy)
  scope_Reflects = record {
    sound = scope_sound req eff policy;
    complete = scope_complete req eff policy;
  }

  state_Reflects : Reflects (eval_workflow_state req policy) (InState req policy)
  unfolding eval_workflow_state
  state_Reflects =
      let parts = split_or_star policy.workflow_state in
      let state = requested_state req policy in
      Reflects-Parts policy.workflow_state
        (λ l. (l ≡ []) ⊎ Listed "*" l ⊎ (state ≡ "") ⊎ Listed state l)
        (Reflects-or (Reflects-nil parts) (
          Reflects-or (Reflects-contains parts "*")
            (Reflects-or (Reflects-eq state "") (Reflects-contains parts state))))

  eligible_Reflects : Reflects (eval_eligible_actor eff policy) (IsEligible eff policy)
  unfolding eval_eligible_actor
  eligible_Reflects =
      let parts = split_or_star policy.eligible_actor in
      Reflects-Parts policy.eligible_actor (λ l. (l ≡ []) ⊎ Listed "*" l ⊎ Some (IsActor eff) l)
        (Reflects-or (Reflects-nil parts) (
          Reflects-or (Reflects-contains parts "*")
            (record { sound = actors_sound eff parts; complete = actors_complete eff parts })))

  responsible_Reflects : Reflects is_responsible (IsResponsible req eff policy)
  responsible_Reflects = record {
    sound = λ h. record {
      eligible = eligible_Reflects.sound (ground arith);
      approver = λ a. contains_sound _ _ (ground arith);
    };
    complete = λ m. elim (Bool-cases (is_approval req.action)) [
      | inl a ↦ rw (eligible_Reflects.complete m.eligible, a, contains_complete _ _ (m.approver a))
      | inr n ↦ rw (eligible_Reflects.complete m.eligible, n)
    ];
  }

  -- the five guards, in their order
  decision-guards : ((check req eff policy).decision ≡ allow) ↔ (
      (is_member ≡ true)
      × (has_permission ≡ true)
      × ((eval_scope req eff policy).1 ≡ true)
      × (eval_workflow_state req policy ≡ true)
      × (is_responsible ≡ true))
  unfolding check
  decision-guards = (λ h. ground arith, λ g. ground arith)

  -- The checker allows a request exactly when the policy permits it.
  pub check-allow_iff : ((check req eff policy).decision ≡ allow) ↔ Permits req eff policy
  check-allow_iff = (
    λ h.
        let g = decision-guards.0 h in
        record {
          member = member_Reflects.sound g.0;
          permission = permission_Reflects.sound g.1;
          scope = scope_Reflects.sound g.2;
          state = state_Reflects.sound g.3;
          responsible = responsible_Reflects.sound g.4;
        },
    λ p. decision-guards.1 (
      member_Reflects.complete p.member,
      permission_Reflects.complete p.permission,
      scope_Reflects.complete p.scope,
      state_Reflects.complete p.state,
      responsible_Reflects.complete p.responsible,
    ),
  )

  -- The first requirement that fails, in the order of the guards.
  pub data DeniedBy : Code → Type 0 where
    not_member : ¬ IsMember req eff policy → DeniedBy company_scope_mismatch
    no_permission :
        IsMember req eff policy → ¬ HasPermission req eff policy → DeniedBy permission_denied
    out_of_scope :
        IsMember req eff policy
        → HasPermission req eff policy
        → ¬ InScope req eff policy
        → DeniedBy data_scope_denied
    wrong_state :
        IsMember req eff policy
        → HasPermission req eff policy
        → InScope req eff policy
        → ¬ InState req policy
        → DeniedBy state_conflict
    not_responsible :
        IsMember req eff policy
        → HasPermission req eff policy
        → InScope req eff policy
        → InState req policy
        → ¬ IsResponsible req eff policy
        → DeniedBy responsibility_required

  abbrev pub HasCode : Code → Type 0
  HasCode c = (check req eff policy).deny_reason_code ≡ some c

  code-member : is_member ≡ false → HasCode company_scope_mismatch
  unfolding check
  code-member h = ground arith

  code-permission : is_member ≡ true → has_permission ≡ false → HasCode permission_denied
  unfolding check
  code-permission h k = ground arith

  code-scope :
      is_member ≡ true
      → has_permission ≡ true
      → (eval_scope req eff policy).1 ≡ false
      → HasCode data_scope_denied
  unfolding check
  code-scope h k s = ground arith

  code-state :
      is_member ≡ true
      → has_permission ≡ true
      → (eval_scope req eff policy).1 ≡ true
      → eval_workflow_state req policy ≡ false
      → HasCode state_conflict
  unfolding check
  code-state h k s t = ground arith

  code-responsible :
      is_member ≡ true
      → has_permission ≡ true
      → (eval_scope req eff policy).1 ≡ true
      → eval_workflow_state req policy ≡ true
      → is_responsible ≡ false
      → HasCode responsibility_required
  unfolding check
  code-responsible h k s t r = ground arith

  mismatch-guard : HasCode company_scope_mismatch → is_member ≡ false
  unfolding check
  mismatch-guard h = ground arith

  pub mismatch-not_member : HasCode company_scope_mismatch → ¬ IsMember req eff policy
  mismatch-not_member h = excludes member_Reflects (mismatch-guard h)

  -- A denial carries the code of the first requirement that fails.
  pub check-deny :
      (check req eff policy).decision ≡ deny
      → (c : Code) × ((check req eff policy).deny_reason_code ≡ some c) × DeniedBy c
  check-deny d = elim (Bool-cases is_member) [
    | inr n ↦ (company_scope_mismatch, code-member n, not_member (excludes member_Reflects n))
    | inl m ↦ elim (Bool-cases has_permission) [
      | inr n ↦ (
        permission_denied,
        code-permission m n,
        no_permission (member_Reflects.sound m) (excludes permission_Reflects n),
      )
      | inl p ↦ elim (Bool-cases (eval_scope req eff policy).1) [
        | inr n ↦ (
          data_scope_denied,
          code-scope m p n,
          out_of_scope (member_Reflects.sound m) (permission_Reflects.sound p)
              (excludes scope_Reflects n),
        )
        | inl s ↦ elim (Bool-cases (eval_workflow_state req policy)) [
          | inr n ↦ (
            state_conflict,
            code-state m p s n,
            wrong_state (member_Reflects.sound m) (permission_Reflects.sound p)
                (scope_Reflects.sound s) (excludes state_Reflects n),
          )
          | inl t ↦ elim (Bool-cases is_responsible) [
            | inr n ↦ (
              responsibility_required,
              code-responsible m p s t n,
              not_responsible (member_Reflects.sound m) (permission_Reflects.sound p)
                  (scope_Reflects.sound s) (state_Reflects.sound t)
                  (excludes responsible_Reflects n),
            )
            | inl r ↦ cc (d, decision-guards.1 (m, p, s, t, r))
          ]
        ]
      ]
    ]
  ]

-- ===== src/Authz/Service/Laws.antt =====
-- What a decision of the service rests on, and batches against single requests.
use cobo_iam_services.Base.{
  ◌≡◌, ◌≢◌, refl, sym, ◌∙◌, ◌↔◌, false, ◌||◌, List, [], ◌∷◌, arith, Bool-cases, inl, inr, subst,
}
use cobo_iam_services.Base.Results.{ok, wrap}
use cobo_iam_services.Base.Fallible.{chain-ok, wrap-eq-ok}
use cobo_iam_services.GoText.{is_blank}
use cobo_iam_services.Authz.{
  AuthorizeRequest, AuthorizeBatchRequest, AuthorizeBatchCheck, AuthorizeDecision, SubjectRef,
  EffectiveAccessSummary, ActionPolicy, Resolver, PolicyRepository, allow,
}
use cobo_iam_services.Authz.Checker.{check}
use cobo_iam_services.Authz.Checker.Permits.{Permits}
use cobo_iam_services.Authz.Checker.Decides.{check-allow_iff}
use cobo_iam_services.Authz.Service.{authorize, authorize_batch, batch_loop, request_of}

ok-injective : {A : Type 0} {a b : A} → ok a ≡ ok b → a ≡ b
ok-injective h = cc

-- What an answer of `authorize` comes from.
pub record Answers (resolver : Resolver) (repo : PolicyRepository) (req : AuthorizeRequest)
    (d : AuthorizeDecision) : Type 0 where
  pub eff : EffectiveAccessSummary
  pub policy : ActionPolicy
  pub has_membership : is_blank req.subject.membership_id ≡ false
  pub has_company : is_blank req.subject.company_id ≡ false
  pub resolved : resolver.resolve req.subject.membership_id req.subject.company_id ≡ ok eff
  pub policy_found : repo.get_action_policy req.subject.company_id req.action ≡ ok policy
  pub decided : d ≡ check req eff policy

module _ (resolver : Resolver) (repo : PolicyRepository) where
  pub authorize-Answers :
      (req : AuthorizeRequest) (d : AuthorizeDecision)
      → authorize resolver repo req ≡ ok d
      → Answers resolver repo req d
  unfolding authorize
  authorize-Answers req d h =
      elim (Bool-cases (is_blank req.subject.membership_id || is_blank req.subject.company_id)) [
        | inl e ↦ cc (rw e at h)
        | inr n ↦
            let (eff, r, h1) =
              chain-ok
                (wrap "resolve effective access"
                  (resolver.resolve req.subject.membership_id req.subject.company_id))
                _ (rw n at h) in
            let (policy, g, h2) =
              chain-ok
                (wrap "get action policy"
                  (repo.get_action_policy req.subject.company_id req.action))
                _ h1 in
            record {
              eff = eff;
              policy = policy;
              has_membership = ground arith;
              has_company = ground arith;
              resolved = wrap-eq-ok _ _ r;
              policy_found = wrap-eq-ok _ _ g;
              decided = cc;
            }
      ]

  -- Every allowed request names a membership and a company, and is permitted for the access that
  -- the resolver found for them under the policy that the repository found for the action.
  pub authorize-allow :
      (req : AuthorizeRequest) (d : AuthorizeDecision)
      → authorize resolver repo req ≡ ok d
      → d.decision ≡ allow
      → (a : Answers resolver repo req d) × Permits req a.eff a.policy
  authorize-allow req d h e =
      let a = authorize-Answers req d h in
      (a, (check-allow_iff req a.eff a.policy).0 (rw a.decided at e))

  -- A decision for each check of a batch.
  pub data Each (subject : SubjectRef)
      : List AuthorizeBatchCheck → List AuthorizeDecision → Type 0 where
    none_left : Each subject [] []
    and_next :
        {c : AuthorizeBatchCheck} {d : AuthorizeDecision} {checks : List AuthorizeBatchCheck}
        {ds : List AuthorizeDecision}
        → authorize resolver repo (request_of subject c) ≡ ok d
        → Each subject checks ds
        → Each subject (c ∷ checks) (d ∷ ds)

  module _ (subject : SubjectRef) (eff : EffectiveAccessSummary)
      (named : (is_blank subject.membership_id || is_blank subject.company_id) ≡ false)
      (resolved : resolver.resolve subject.membership_id subject.company_id ≡ ok eff) where
    authorize_one :
        (c : AuthorizeBatchCheck) (policy : ActionPolicy)
        → repo.get_action_policy subject.company_id c.action ≡ ok policy
        → authorize resolver repo (request_of subject c)
          ≡ ok (check (request_of subject c) eff policy)
    unfolding authorize
    authorize_one c policy p = rw (named, resolved, p)

    loop-Each :
        (checks : List AuthorizeBatchCheck) (ds : List AuthorizeDecision)
        → batch_loop resolver repo subject eff checks ≡ ok ds
        → Each subject checks ds
    unfolding batch_loop
    loop-Each [] [] h = none_left
    loop-Each [] (d ∷ ds) h = cc
    loop-Each (c ∷ checks) ds h =
        let (policy, p, h1) =
          chain-ok
            (wrap "get action policy (batch)" (repo.get_action_policy subject.company_id c.action))
            _ h in
        let (rest, r, h2) = chain-ok (batch_loop resolver repo subject eff checks) _ h1 in
        subst (λ l. Each subject (c ∷ checks) l) (ok-injective h2)
          (and_next (authorize_one c policy (wrap-eq-ok _ _ p)) (loop-Each checks rest r))

    Each-loop :
        (checks : List AuthorizeBatchCheck) (ds : List AuthorizeDecision)
        → Each subject checks ds
        → batch_loop resolver repo subject eff checks ≡ ok ds
    unfolding batch_loop
    Each-loop checks ds none_left = refl
    Each-loop (c ∷ checks) (d ∷ ds) (and_next h rest) =
        let a = authorize-Answers (request_of subject c) d h in
        let same : a.eff ≡ eff = ok-injective (sym a.resolved ∙ resolved) in
        rw (a.policy_found, Each-loop checks ds rest, a.decided, same)

  batch_sound :
      (req : AuthorizeBatchRequest) (ds : List AuthorizeDecision)
      → authorize_batch resolver repo req ≡ ok ds
      → Each req.subject req.checks ds
  unfolding authorize_batch
  batch_sound req ds h =
      elim (Bool-cases (is_blank req.subject.membership_id || is_blank req.subject.company_id)) [
        | inl e ↦ cc (rw e at h)
        | inr n ↦
            let (eff, r, h1) =
              chain-ok
                (wrap "resolve effective access"
                  (resolver.resolve req.subject.membership_id req.subject.company_id))
                _ (rw n at h) in
            loop-Each req.subject eff n (wrap-eq-ok _ _ r) req.checks ds h1
      ]

  batch_complete :
      (req : AuthorizeBatchRequest) (ds : List AuthorizeDecision)
      → req.checks ≢ []
      → Each req.subject req.checks ds
      → authorize_batch resolver repo req ≡ ok ds
  unfolding authorize_batch
  batch_complete req ds nonempty each = go req.checks ds nonempty each
    where
      go :
          (checks : List AuthorizeBatchCheck) (ds : List AuthorizeDecision)
          → checks ≢ []
          → Each req.subject checks ds
          → authorize_batch resolver repo (record { subject = req.subject; checks = checks })
            ≡ ok ds
      go checks ds n none_left = absurd (n refl)
      go (c ∷ checks) (d ∷ ds) n (and_next h rest) =
          let a = authorize-Answers (request_of req.subject c) d h in
          let named : (is_blank req.subject.membership_id || is_blank req.subject.company_id)
              ≡ false =
            rw (a.has_membership, a.has_company) in
          rw (named, a.resolved)
            (Each-loop req.subject a.eff named a.resolved (c ∷ checks) (d ∷ ds) (and_next h rest))

  -- A batch with at least one check answers exactly when each of its checks alone is answered, and
  -- then with the same decisions in the same order.
  pub authorize_batch_iff :
      (req : AuthorizeBatchRequest) (ds : List AuthorizeDecision)
      → req.checks ≢ []
      → (authorize_batch resolver repo req ≡ ok ds) ↔ Each req.subject req.checks ds
  authorize_batch_iff req ds n = (batch_sound req ds, batch_complete req ds n)

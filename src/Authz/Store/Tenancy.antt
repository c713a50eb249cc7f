-- ===== src/Authz/Store/Tenancy.antt =====
-- The service over the in-memory repository: what a subject may be refused for, and what an action
-- without a policy of its own asks for.
use cobo_iam_services.Base.{String, ◌≡◌, ◌≢◌, sym, subst, none, some, arith}
use cobo_iam_services.Base.Results.{ok, company_scope_mismatch}
use cobo_iam_services.GoText.{trim_space, is_space}
use cobo_iam_services.Dict.{lookup}
use cobo_iam_services.Authz.{
  AuthorizeRequest, AuthorizeDecision, Resolver, PolicyRepository, ActionPolicy, allow,
}
use cobo_iam_services.Authz.Checker.Permits.{Listed}
use cobo_iam_services.Authz.Checker.Decides.{mismatch-not_member}
use cobo_iam_services.Authz.Resolution.{Repository, new_resolver, resolve-IsAbout}
use cobo_iam_services.Authz.Service.{authorize}
use cobo_iam_services.Authz.Service.Laws.{Answers, authorize-Answers, authorize-allow}
use cobo_iam_services.Authz.Store.{Tables, fallback_policy, get_action_policy, new_policies}

-- Whatever the read port and the policies, the decision of a resolved request is never a scope
-- mismatch: the access is that of the membership and the company that the subject names.
pub authorize-never-mismatch :
    (repo : Repository) (policies : PolicyRepository) (req : AuthorizeRequest)
    (d : AuthorizeDecision)
    → authorize (new_resolver repo) policies req ≡ ok d
    → d.deny_reason_code ≢ some company_scope_mismatch
authorize-never-mismatch repo policies req d h c =
    let a = authorize-Answers (new_resolver repo) policies req d h in
    let about = resolve-IsAbout repo _ _ a.eff a.resolved in
    mismatch-not_member req a.eff a.policy (rw a.decided at c)
      (record { same_company = sym about.company; same_membership = sym about.membership })

required-fallback :
    (r : Tables) (company_id action : String) (policy : ActionPolicy)
    → lookup action r.policies ≡ none
    → get_action_policy r company_id action ≡ ok policy
    → trim_space policy.required_permission ≡ "system.settings"
unfolding trim_space is_space
required-fallback r company_id action policy missing found =
    let same : policy ≡ fallback_policy action = unfold get_action_policy in ground arith in rw same

-- An action that no policy names is allowed only to a membership whose permissions, as the
-- resolver lists them, hold `system.settings`, letter case aside.
pub unlisted-allow :
    (resolver : Resolver) (r : Tables) (req : AuthorizeRequest) (d : AuthorizeDecision)
    → lookup req.action r.policies ≡ none
    → authorize resolver (new_policies r) req ≡ ok d
    → d.decision ≡ allow
    → (a : Answers resolver (new_policies r) req d) × Listed "system.settings" a.eff.permissions
unlisted-allow resolver r req d missing h e =
    let (a, p) = authorize-allow resolver (new_policies r) req d h e in
    (
      a,
      subst (λ t. Listed t a.eff.permissions)
          (required-fallback r req.subject.company_id req.action a.policy missing a.policy_found)
          p.permission.held,
    )

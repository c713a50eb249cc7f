-- ===== src/Authz/Service.antt =====
-- internal/authorization/app/service.go over a resolver and a policy repository.
pub mod Laws
use cobo_iam_services.Base.{String, ◌||◌, List, [], ◌∷◌, if◌then◌else◌}
use cobo_iam_services.Base.Results.{
  Error, new_http_error, company_context_required, Result, ok, err, wrap,
}
use cobo_iam_services.Base.Fallible.{◌>>=◌}
use cobo_iam_services.GoText.{is_blank}
use cobo_iam_services.Authz.{
  AuthorizeRequest, AuthorizeBatchRequest, AuthorizeBatchCheck, AuthorizeDecision, SubjectRef,
  EffectiveAccessSummary, Resolver, PolicyRepository, AuthService,
}
use cobo_iam_services.Authz.Checker.{check}

abbrev pub no_context : Error
no_context = new_http_error 422 company_context_required "membership_id and company_id are required"

-- the request that a batch makes of one of its checks
abbrev pub request_of : SubjectRef → AuthorizeBatchCheck → AuthorizeRequest
request_of subject c = record { subject = subject; action = c.action; resource = c.resource }

module _ (resolver : Resolver) (repo : PolicyRepository) where
  unfoldable pub authorize : AuthorizeRequest → Result AuthorizeDecision
  authorize req =
      if is_blank req.subject.membership_id || is_blank req.subject.company_id
      then err no_context
      else do
        eff ←
            wrap "resolve effective access"
              (resolver.resolve req.subject.membership_id req.subject.company_id)
        policy ← wrap "get action policy" (repo.get_action_policy req.subject.company_id req.action)
        ok (check req eff policy)

  -- the loop of `AuthorizeBatch`
  unfoldable pub batch_loop :
      SubjectRef
      → EffectiveAccessSummary
      → List AuthorizeBatchCheck
      → Result (List AuthorizeDecision)
  batch_loop subject eff [] = ok []
  batch_loop subject eff (c ∷ checks) =
      let rest = batch_loop subject eff checks in
      do
        policy ←
            wrap "get action policy (batch)" (repo.get_action_policy subject.company_id c.action)
        results ← rest
        ok (check (request_of subject c) eff policy ∷ results)

  unfoldable pub authorize_batch : AuthorizeBatchRequest → Result (List AuthorizeDecision)
  authorize_batch req =
      if is_blank req.subject.membership_id || is_blank req.subject.company_id
      then err no_context
      else do
        eff ←
            wrap "resolve effective access"
              (resolver.resolve req.subject.membership_id req.subject.company_id)
        batch_loop req.subject eff req.checks

  unfoldable pub get_effective_access : String → String → Result EffectiveAccessSummary
  get_effective_access membership_id company_id =
      if is_blank membership_id || is_blank company_id
      then err no_context
      else resolver.resolve membership_id company_id

  abbrev pub new_service : AuthService
  new_service = record { authorize = authorize; get_effective_access = get_effective_access }

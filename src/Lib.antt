-- ===== src/Lib.antt =====
-- A model of the Cobo IAM services: who may log in, what a session and a membership may do, how
-- workflow tasks move, and how queued events are delivered.
--
-- The program has services over repositories. The IAM service (internal/iam) logs users in, keeps
-- their sessions and recovers accounts; it asks companyaccess for memberships. Every business
-- service asks the authorization service (internal/authorization) before it acts: a resolver reads
-- the access of a membership, a policy repository the policy of the action, and the checker
-- decides. The workflow service (internal/workflow) and the disclosure service
-- (internal/disclosure) are such clients: the first moves tasks, the second the records that a
-- company discloses, and it keeps the types of disclosures with their versions. Mails and
-- notifications go through the outbox (internal/platform/outbox), whose processor delivers and
-- retries them. Administrators of a company keep its users and grants (internal/companyaccess),
-- and a log keeps what was done (internal/audit).
--
-- Which file models what:
--   Base, Base/Results: internal/platform/errors/errors.go, and the shape of a Go method, `Exec`: a
--     state to a result and a state. What was written before an error stays written.
--   GoText: the functions of Go's strings package that the program calls.
--   Dict: Go's maps with text keys, as association lists. No theorem depends on their order.
--   Authz: internal/authorization/app/contracts.go. Authz/Service: app/service.go (Authorize,
--     AuthorizeBatch, GetEffectiveAccess). Authz/Checker: infra/inmemory/checker.go (Check is `check`).
--     Authz/Resolution: infra/inmemory/resolver.go. Authz/Store: infra/inmemory/repository.go.
--     Authz/Cache: infra/projection/store.go and cached_resolver.go. Authz/Client: the `authorize`
--     method of a business service. Checker/Parts and Permits state
--     the policy without the checker's loops.
--   Workflow: internal/workflow, contracts.go, app/service.go and infra/inmemory/repository.go.
--     transitionTask is `transition_task`, and `settle` what it does once the task is found.
--   Iam: internal/iam/app/contracts.go and hooks.go, the ports as records of operations over any
--     state. Iam/Login and Iam/Attempts: Login and recordLoginAttempt of app/service.go. Iam/Context:
--     Refresh, Logout, SelectCompany, SwitchCompany, ListSessions, RevokeSession. Iam/Recovery:
--     ForgotPassword, ResendVerificationEmail, ResetPassword, VerifyEmail. Iam/Sessions:
--     infra/inmemory/sessions.go with its two maps to shared cells, so that aliasing is modelled.
--     Iam/Tokens: infra/inmemory/tokens.go. Iam/Credentials: infra/inmemory/credentials.go.
--     Iam/DualTokens: infra/token/dual/manager.go.
--   Disclosure: internal/disclosure/app/contracts.go. Disclosure/Records: the records of
--     infra/inmemory/repository.go and their handlers in app/service.go; Disclosure/Access, Dates and
--     Sanitize: the helpers of that file. Disclosure/Lifecycle and History: what calls do to records.
--     Disclosure/Types: the types and blocks. Disclosure/Matrix: app/template_validation.go.
--     Disclosure/Blocks: app/template_block_schema.go. Disclosure/FlatSync:
--     app/template_flat_block_sync.go. Disclosure/Catalog: the types and versions of
--     infra/inmemory/repository.go, with their handlers in Catalog/Admin.
--   CompanyAccess: internal/companyaccess/app/admin.go. CompanyAccess/Repository:
--     infra/inmemory/admin_repository.go. CompanyAccess/Admin and Rules: app/admin_service.go.
--     CompanyAccess/Memberships: infra/inmemory/membership_query.go.
--   Notification: internal/notification/app/service.go and infra/inmemory/repository.go; the batch of
--     a dispatch and what becomes of it are followed in Notification/Batch and Dispatch.
--   Audit: internal/audit/app/contracts.go, appimpl/service.go and infra/inmemory/repository.go.
--   Cors: internal/httpserver/cors.go, with the configured origins in Cors/Allowed.
--   Outbox: internal/platform/outbox, contracts.go, inmemory/repository.go, processor.go
--     and publisher.go.
--
-- Conventions. Times and durations are natural numbers of nanoseconds, and the clock, the source
-- of randomness, the generator of identifiers, handlers, bcrypt, SHA-256, the query encoding and
-- the parsing of URLs and of RFC 3339 times are parameters. A mutex makes each repository method
-- one step, so an interleaving is a sequence of steps. Loops are structural recursion, so no fuel
-- is needed; the digits of a number are written with fuel for more rounds than the number. A
-- `map[string]any` is a JSON object, and a float64 its sign, whole part and whether it has a
-- fraction; parsing floats, the verb %q and conversions out of range are parameters. A display
-- order or version number of zero or less is 0. `sort.Slice` is an insertion sort by the same
-- comparison. Case mapping covers ASCII, Latin-1, Latin Extended-A, the horned vowels and Latin
-- Extended Additional, which hold the Vietnamese alphabet. AuthorizeRequest.Context and
-- HTTPError.Cause are left out, since nothing that is modelled reads them.
--
-- Not modelled: the MySQL and Redis repositories, whose work is done by a database; the other HTTP
-- transport, configuration and wiring; the JWT manager, which rests on a third-party library; the
-- opaque manager, the same code as the in-memory one; the administration of the CMS
-- (internal/platformcms). The seed of the disclosure types is an argument, not a table. The
-- transactional branch of EnqueueNotification and the idempotency package are left out.
pub mod Base
pub mod GoText
pub mod Dict
pub mod Authz
pub mod Workflow
pub mod Disclosure
pub mod CompanyAccess
pub mod Iam
pub mod Outbox
pub mod Notification
pub mod Audit
pub mod Cors

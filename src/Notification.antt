-- ===== src/Notification.antt =====
-- internal/notification: the jobs and deliveries of infra/inmemory/repository.go, and the handlers of
-- app/service.go that queue and dispatch them. The branch for a database transaction is left out, as
-- is a Go panic's unwinding: it is an error here, after which what was written stays written.
pub mod Batch
pub mod Dispatch
mod Tests
use Prim.Native.Nat.{Ordering}
use Prim.Native.String.{compare}
use cobo_iam_services.Base.{
  ℕ, zero, suc, ◌+◌, String, ◌<>◌, Bool, true, false, not, ◌&&◌, Option, none, some, List, [], ◌∷◌,
  ◌==◌, eqb, if◌then◌else◌, take,
}
use cobo_iam_services.Base.Results.{
  new_http_error, invalid_request, Error, plain, Result, ok, err, Exec, pure, raise, lift, gets,
  unless, ◌>>=◌, ◌>>◌,
}
use cobo_iam_services.GoText.{is_blank}
use cobo_iam_services.Dict.{Dict, lookup, insert}
use cobo_iam_services.Authz.{AuthService, SubjectRef}
use cobo_iam_services.Authz.Client.{require}
use cobo_iam_services.Iam.Recovery.{Event}
use cobo_iam_services.Disclosure.Types.{Fields}

pub record NotificationJobDto : Type 0 where
  pub notification_job_id : String
  pub company_id : String
  pub event_type : String
  pub resource_type : String
  pub resource_id : String
  pub payload : Fields
  pub status : String

pub record NotificationDeliveryDto : Type 0 where
  pub notification_delivery_id : String
  pub notification_job_id : String
  pub recipient : String
  pub status : String

pub record ResolveRecipientsRequest : Type 0 where
  pub subject : SubjectRef
  pub event_type : String
  pub resource_type : String
  pub resource_id : String

pub record EnqueueNotificationRequest : Type 0 where
  pub subject : SubjectRef
  pub event_type : String
  pub resource_type : String
  pub resource_id : String
  pub payload : Fields

-- A limit of zero or less is 0.
pub record DispatchPendingRequest : Type 0 where
  pub subject : SubjectRef
  pub limit : ℕ

-- The maps of the repository, what the outbox keeps, and how many identifiers have been given out.
pub record State (O : Type 0) : Type 0 where
  pub jobs : Dict NotificationJobDto
  pub deliveries : Dict NotificationDeliveryDto
  pub outbox : O
  pub next_id : ℕ

unfoldable pub key : String → String → String
key company_id id = company_id <> ":" <> id

abbrev pub job_key : NotificationJobDto → String
job_key j = key j.company_id j.notification_job_id

unfoldable pub pending_of : String → Dict NotificationJobDto → List NotificationJobDto
pending_of company_id [] = []
pending_of company_id ((k, j) ∷ jobs) =
    let rest = pending_of company_id jobs in
    if j.company_id == company_id && j.status == "pending" then j ∷ rest else rest

abbrev pub is_less : Ordering → Bool
is_less Ordering.lt = true
is_less _ = false

unfoldable pub insert_job : NotificationJobDto → List NotificationJobDto → List NotificationJobDto
insert_job j [] = j ∷ []
insert_job j (i ∷ jobs) =
    let rest = insert_job j jobs in
    if is_less (compare i.notification_job_id j.notification_job_id) then i ∷ rest else j ∷ i ∷ jobs

-- `sort.Slice` by the jobs' ids
unfoldable pub sort_jobs : List NotificationJobDto → List NotificationJobDto
unfolding insert_job
sort_jobs [] = []
sort_jobs (j ∷ jobs) = insert_job j (sort_jobs jobs)

module _ {O : Type 0} where
  unfoldable pub create_job : NotificationJobDto → Exec (State O) NotificationJobDto
  create_job job s = (ok job, record s { jobs = insert (job_key job) job s.jobs })

  unfoldable pub list_pending_jobs : String → ℕ → Exec (State O) (List NotificationJobDto)
  unfolding pending_of sort_jobs
  list_pending_jobs company_id limit s =
      let jobs = sort_jobs (pending_of company_id s.jobs) in
      (ok (if eqb limit 0 then jobs else take limit jobs), s)

  unfoldable pub update_job_status : String → String → String → Exec (State O) (Unit {0})
  update_job_status company_id job_id status s = elim (lookup (key company_id job_id) s.jobs) [
    | none ↦ (ok tt, s)
    | some job ↦ (
      ok tt,
      record s { jobs = insert (key company_id job_id) (record job { status = status }) s.jobs },
    )
  ]

  unfoldable pub create_delivery : NotificationDeliveryDto → Exec (State O) NotificationDeliveryDto
  create_delivery d s =
      (ok d, record s { deliveries = insert d.notification_delivery_id d s.deliveries })

abbrev pub or_fifty : ℕ → ℕ
or_fifty limit = if eqb limit 0 then 50 else limit

-- What the service is built from: `publish` is the outbox's.
pub record Ports (O : Type 0) : Type 0 where
  pub auth : AuthService
  pub new_uuid : ℕ → String
  pub publish : Event → Exec O (Unit {0})

module _ {O : Type 0} (ports : Ports O) where
  abbrev pub authorize : SubjectRef → String → String → Result (Unit {0})
  authorize subject action resource_id =
      require "authorize notification action" ports.auth (record {
        subject = subject;
        action = action;
        resource = record { type = "notification_job"; id = resource_id; attributes = [] };
      })

  abbrev next_uuid : Exec (State O) String
  next_uuid s = (ok (ports.new_uuid s.next_id), record s { next_id = s.next_id + 1 })

  abbrev recipients_of : SubjectRef → Result (Unit {0}) → Result (List String)
  recipients_of subject (ok granted) = ok (subject.membership_id ∷ [])
  recipients_of subject (err e) = err e

  unfoldable pub resolve_recipients : ResolveRecipientsRequest → Result (List String)
  resolve_recipients req =
      recipients_of req.subject
        (authorize req.subject "notification.resolve_recipients" req.resource_id)

  unfoldable pub to_outbox_event : NotificationJobDto → String → ℕ → Event
  to_outbox_event job event_id now = record {
    event_id = event_id;
    aggregate_type = "notification_job";
    aggregate_id = job.notification_job_id;
    event_type = "notification.dispatch";
    payload = ("company_id", job.company_id) ∷ ("job_id", job.notification_job_id) ∷ [];
    occurred_at = now;
  }

  -- The event's error is ignored.
  unfoldable pub publish_job : ℕ → NotificationJobDto → Exec (State O) NotificationJobDto
  unfolding to_outbox_event
  publish_job now job s =
      let event = to_outbox_event job (ports.new_uuid s.next_id) now in
      (ok job, record s { outbox = (ports.publish event s.outbox).1; next_id = s.next_id + 1 })

  unfoldable pub enqueue_notification :
      ℕ → EnqueueNotificationRequest → Exec (State O) NotificationJobDto
  unfolding create_job publish_job
  enqueue_notification now req =
      unless (is_blank req.event_type) (new_http_error 400 invalid_request "event_type is required")
        do
          lift (authorize req.subject "notification.enqueue" req.resource_id)
          id ← next_uuid
          created ← create_job (record {
            notification_job_id = id;
            company_id = req.subject.company_id;
            event_type = req.event_type;
            resource_type = req.resource_type;
            resource_id = req.resource_id;
            payload = req.payload;
            status = "pending";
          })
          publish_job now created

  -- A delivery for each recipient; its error is ignored.
  unfoldable pub deliver : NotificationJobDto → List String → Exec (State O) (Unit {0})
  unfolding create_delivery
  deliver job [] = pure tt
  deliver job (r ∷ recipients) = do
    id ← next_uuid
    create_delivery (record {
      notification_delivery_id = id;
      notification_job_id = job.notification_job_id;
      recipient = r;
      status = "sent";
    })
    deliver job recipients

  abbrev pub recipients_request : SubjectRef → NotificationJobDto → ResolveRecipientsRequest
  recipients_request subject job = record {
    subject = subject;
    event_type = job.event_type;
    resource_type = job.resource_type;
    resource_id = job.resource_id;
  }

  -- `recipients.Recipients` of a nil pointer panics.
  abbrev pub or_panic : Result (List String) → Result (List String)
  or_panic (ok recipients) = ok recipients
  or_panic (err e) = err (plain "nil pointer dereference")

  -- one round of the loop
  unfoldable pub dispatch_job : SubjectRef → NotificationJobDto → Exec (State O) (Unit {0})
  unfolding resolve_recipients deliver update_job_status
  dispatch_job subject job = do
    recipients ← lift (or_panic (resolve_recipients (recipients_request subject job)))
    deliver job recipients
    update_job_status job.company_id job.notification_job_id "dispatched"

  unfoldable pub dispatch_jobs : SubjectRef → ℕ → List NotificationJobDto → Exec (State O) ℕ
  unfolding dispatch_job
  dispatch_jobs subject dispatched [] = pure dispatched
  dispatch_jobs subject dispatched (job ∷ jobs) =
      dispatch_job subject job >> dispatch_jobs subject (suc dispatched) jobs

  unfoldable pub dispatch_pending : DispatchPendingRequest → Exec (State O) ℕ
  unfolding list_pending_jobs dispatch_jobs
  dispatch_pending req = do
    lift (authorize req.subject "notification.dispatch" "")
    jobs ← list_pending_jobs req.subject.company_id (or_fifty req.limit)
    dispatch_jobs req.subject 0 jobs

-- ===== src/Notification/Tests.antt =====
-- Two jobs of a company and one of another: a dispatch settles the two.
use cobo_iam_services.Base.{
  String, ◌≡◌, ◌≤◌, refl, true, none, List, [], ◌∷◌, length, In, here, there,
}
use cobo_iam_services.Base.Results.{ok}
use cobo_iam_services.Base.Unary.{uuid}
use cobo_iam_services.Authz.{
  AuthService, AuthorizeDecision, allow, SubjectRef, EffectiveAccessSummary,
}
use cobo_iam_services.Iam.Recovery.{Event}
use cobo_iam_services.Disclosure.Types.{Fields}
use cobo_iam_services.Notification.{
  NotificationJobDto, EnqueueNotificationRequest, DispatchPendingRequest, State, Ports, job_key,
  or_fifty, to_outbox_event, enqueue_notification, dispatch_pending,
}
use cobo_iam_services.Notification.Batch.{batch, IsFiled}
use cobo_iam_services.Notification.Dispatch.{IsDone, dispatch_pending-settles}

abbrev consent : AuthorizeDecision
consent = record {
  decision = allow;
  matched_permissions = [];
  scope_reasons = [];
  responsibility_reasons = [];
  deny_reason_code = none;
}

abbrev access : EffectiveAccessSummary
access = record {
  company_id = "c_1";
  membership_id = "m_1";
  permissions = [];
  data_scope = record {
    scope_type = "company";
    departments = [];
    record_assignments = [];
    has_company_wide_access = true;
    org_unit_ids = [];
    org_subtree_unit_ids = [];
    position_codes = [];
  };
  responsibilities = [];
}

abbrev ports : Ports (List Event)
ports = record {
  auth = record { authorize = λ req. ok consent; get_effective_access = λ m c. ok access };
  new_uuid = uuid;
  publish = λ e es. (ok tt, e ∷ es);
}

abbrev subject : SubjectRef
subject = record { user_id = "u_1"; membership_id = "m_1"; company_id = "c_1" }

abbrev start : State (List Event)
start = record { jobs = []; deliveries = []; outbox = []; next_id = 1 }

abbrev enqueue : SubjectRef → State (List Event) → State (List Event)
enqueue sub s =
    (enqueue_notification ports 5
      (record {
        subject = sub;
        event_type = "published";
        resource_type = "disclosure_record";
        resource_id = "r_1";
        payload = Fields.empty;
      })
      s).1

abbrev job : String → String → NotificationJobDto
job id company_id = record {
  notification_job_id = id;
  company_id = company_id;
  event_type = "published";
  resource_type = "disclosure_record";
  resource_id = "r_1";
  payload = Fields.empty;
  status = "pending";
}

abbrev events : List Event
events =
    to_outbox_event ports (job "uuuuu" "c_1") "uuuuuu" 5
    ∷ to_outbox_event ports (job "uuu" "c_2") "uuuu" 5
    ∷ to_outbox_event ports (job "u" "c_1") "uu" 5
    ∷ []

abbrev queued : State (List Event)
queued = record {
  jobs =
      ("c_1:u", job "u" "c_1")
      ∷ ("c_2:uuu", job "uuu" "c_2")
      ∷ ("c_1:uuuuu", job "uuuuu" "c_1")
      ∷ [];
  deliveries = [];
  outbox = events;
  next_id = 7;
}

enqueued :
    enqueue subject (enqueue (record subject { company_id = "c_2" }) (enqueue subject start))
    ≡ queued
unfolding enqueue_notification cobo_iam_services.GoText.trim_space cobo_iam_services.GoText.is_space
    cobo_iam_services.Authz.Client.require cobo_iam_services.Dict.insert
    cobo_iam_services.Notification.key
enqueued = refl

abbrev request : DispatchPendingRequest
request = record { subject = subject; limit = 0 }

dispatched_two : (dispatch_pending ports request queued).0 ≡ ok 2
unfolding dispatch_pending cobo_iam_services.Authz.Client.require cobo_iam_services.Dict.lookup
    cobo_iam_services.Notification.key cobo_iam_services.Dict.insert
dispatched_two = refl

delivered_two : length (dispatch_pending ports request queued).1.deliveries ≡ 2
unfolding dispatch_pending cobo_iam_services.Authz.Client.require cobo_iam_services.Dict.lookup
    cobo_iam_services.Notification.key cobo_iam_services.Dict.insert
delivered_two = refl

dispatched_once :
    (dispatch_pending ports request (dispatch_pending ports request queued).1).0 ≡ ok 0
unfolding dispatch_pending cobo_iam_services.Authz.Client.require cobo_iam_services.Dict.lookup
    cobo_iam_services.Notification.key cobo_iam_services.Dict.insert
dispatched_once = refl

queued-IsFiled : IsFiled queued.jobs
unfolding IsFiled cobo_iam_services.Notification.key
queued-IsFiled k j here = refl
queued-IsFiled k j (there here) = refl
queued-IsFiled k j (there (there here)) = refl
queued-IsFiled k j (there (there (there m))) = elim m [ ]

settled : dispatch_pending ports request queued ≡ (ok 2, (dispatch_pending ports request queued).1)
unfolding dispatch_pending cobo_iam_services.Authz.Client.require cobo_iam_services.Dict.lookup
    cobo_iam_services.Notification.key cobo_iam_services.Dict.insert
settled = refl

dispatch_pending-settles_example :
    (2 ≡ length (batch "c_1" 0 queued.jobs))
    × (2 ≤ or_fifty 0)
    × ((j : NotificationJobDto)
        → In j (batch "c_1" 0 queued.jobs)
        → IsDone (job_key j) (dispatch_pending ports request queued).1.jobs)
dispatch_pending-settles_example =
    dispatch_pending-settles ports request 2 queued (dispatch_pending ports request queued).1
      queued-IsFiled settled

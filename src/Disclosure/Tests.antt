-- ===== src/Disclosure/Tests.antt =====
-- A record from its draft to its completion, over a service that allows everything.
use cobo_iam_services.Base.{
  In, ◌++◌, String, ◌≡◌, ◌≢◌, refl, true, false, none, some, List, [], ◌∷◌, ne_of_eq-false,
}
use cobo_iam_services.Base.Results.{ok, plain, err}
use cobo_iam_services.Base.Unary.{uuid, uuid_inj}
use cobo_iam_services.GoText.{to_lower}
use cobo_iam_services.Dict.{lookup}
use cobo_iam_services.Authz.{AuthService, AuthorizeDecision, allow, SubjectRef}
use cobo_iam_services.Workflow.Keys.{is_plain}
use cobo_iam_services.Workflow.Calls.{IsFresh}
use cobo_iam_services.Disclosure.{RecordDto, RecordPayload}
use cobo_iam_services.Disclosure.Records.{
  State, CreateRecordRequest, RecordRequest, key, create_record, submit_record, confirm_record,
  list_records, published, completed,
}
use cobo_iam_services.Disclosure.Lifecycle.{Confirms, Replaces, confirm_record_iff}
use cobo_iam_services.Disclosure.History.{
  Call, create, submit, confirm, IsValid, IsValid-IsKeyed, run, Later,
}
use cobo_iam_services.Disclosure.History.Stages.{run-IsValid_stages, run-Later}
use cobo_iam_services.Disclosure.History.Published.{run-published_first}
use cobo_iam_services.Disclosure.History.Completes.{submit-confirm}
use cobo_iam_services.Disclosure.Tenancy.{
  creates, updates, apply, replay, view, Agree, apply-replay,
}

abbrev consent : AuthorizeDecision
consent = record {
  decision = allow;
  matched_permissions = [];
  scope_reasons = [];
  responsibility_reasons = [];
  deny_reason_code = none;
}

abbrev auth : AuthService
auth = record { authorize = λ req. ok consent; get_effective_access = λ m c. err (plain "unused") }

uuid-IsFresh : IsFresh uuid
unfolding IsFresh
uuid-IsFresh = uuid_inj

abbrev subject : SubjectRef
subject = record { user_id = "u_1"; membership_id = "m_1"; company_id = "c_1" }

abbrev empty : State
empty = record { items = []; next_id = 1 }

empty-IsValid : IsValid auth uuid empty
unfolding IsValid lookup
empty-IsValid = λ k it h. cc

abbrev creation : CreateRecordRequest
creation = record {
  subject = subject;
  payload = record {
    type_id = " t_1 ";
    department_id = "";
    title = " Annual report ";
    summary = "";
    content = "text";
    planned_date = "2024-02-29";
    attachments = [];
    evidence_link = "";
  };
}

abbrev request : RecordRequest
request = record { subject = subject; record_id = "u" }

abbrev first_draft : RecordDto
first_draft = record {
  record_id = "u";
  company_id = "c_1";
  type_id = "t_1";
  department_id = "general";
  title = "Annual report";
  summary = "";
  content = "text";
  planned_date = "2024-02-29";
  published_date = "";
  status = "Draft";
  attachments = [];
  evidence_link = "";
  created_by = "u_1";
  updated_by = "u_1";
}

abbrev today : String
today = "2024-03-01"

abbrev public_record : RecordDto
public_record = record first_draft { status = "Published"; published_date = today }

abbrev done : RecordDto
done = record public_record { status = "Completed" }

abbrev drafted : State
drafted = (create_record auth uuid creation empty).1

abbrev submitted : State
submitted = (submit_record auth uuid today request drafted).1

creates_draft : create_record auth uuid creation empty ≡ (ok first_draft, drafted)
unfolding create_record cobo_iam_services.GoText.trim_space cobo_iam_services.GoText.is_space
    cobo_iam_services.Disclosure.Dates.normalize_date cobo_iam_services.Authz.Client.require
    cobo_iam_services.Disclosure.Sanitize.sanitize_attachments
creates_draft = refl

confirms :
    confirm_record auth uuid request submitted
    ≡ (ok done, (confirm_record auth uuid request submitted).1)
unfolding confirm_record cobo_iam_services.GoText.trim_space cobo_iam_services.GoText.is_space
    lookup submit_record create_record cobo_iam_services.Disclosure.Dates.normalize_date
    cobo_iam_services.Authz.Client.require cobo_iam_services.Dict.insert key
    cobo_iam_services.Disclosure.Records.update published to_lower completed
    cobo_iam_services.Disclosure.Sanitize.sanitize_attachments
confirms = refl

draft_stored : lookup (key "c_1" "u") drafted.items ≡ some first_draft
unfolding lookup create_record cobo_iam_services.GoText.trim_space cobo_iam_services.GoText.is_space
    cobo_iam_services.Disclosure.Dates.normalize_date cobo_iam_services.Authz.Client.require
    cobo_iam_services.Dict.insert key cobo_iam_services.Disclosure.Sanitize.sanitize_attachments
draft_stored = refl

is_plain_c_1 : is_plain "c_1" ≡ true
unfolding is_plain
is_plain_c_1 = refl

today_filled : today ≢ ""
today_filled = ne_of_eq-false {s = "2024-03-01"} {t = ""} refl

drafted-IsValid : IsValid auth uuid drafted
unfolding create_record run
drafted-IsValid =
    run-IsValid_stages auth uuid (create creation ∷ []) empty empty-IsValid (is_plain_c_1, tt)

submitted-IsValid : IsValid auth uuid submitted
unfolding submit_record run
submitted-IsValid =
    run-IsValid_stages auth uuid (submit today request ∷ []) drafted drafted-IsValid
      (today_filled, tt)

run-IsValid_stages_example :
    IsValid auth uuid (run auth uuid (create creation ∷ submit today request ∷ []) empty)
run-IsValid_stages_example =
    run-IsValid_stages auth uuid (create creation ∷ submit today request ∷ []) empty empty-IsValid
      (is_plain_c_1, (today_filled, tt))

confirm_record_iff_example :
    (false ≡ false)
    × Replaces submitted
        (key "c_1" "u")
        (Confirms auth uuid request)
        done
        (confirm_record auth uuid request submitted).1
unfolding cobo_iam_services.GoText.trim_space cobo_iam_services.GoText.is_space
confirm_record_iff_example =
    (confirm_record_iff auth uuid request submitted done
        (confirm_record auth uuid request submitted).1
        (IsValid-IsKeyed auth uuid submitted submitted-IsValid)).0
      confirms

abbrev rest : List Call
rest = submit today request ∷ confirm request ∷ []

run-Later_example :
    (rec : RecordDto) × (lookup (key "c_1" "u") (run auth uuid rest drafted).items ≡ some rec)
    × Later auth uuid (key "c_1" "u") rest first_draft rec
run-Later_example =
    run-Later auth uuid rest drafted (key "c_1" "u") first_draft uuid-IsFresh drafted-IsValid
      (today_filled, (tt, tt)) draft_stored

done_stored : lookup (key "c_1" "u") (run auth uuid rest drafted).items ≡ some done
unfolding lookup run confirm_record cobo_iam_services.GoText.trim_space
    cobo_iam_services.GoText.is_space submit_record create_record
    cobo_iam_services.Disclosure.Dates.normalize_date cobo_iam_services.Authz.Client.require
    cobo_iam_services.Dict.insert key cobo_iam_services.Disclosure.Records.update published to_lower
    completed cobo_iam_services.Disclosure.Sanitize.sanitize_attachments
done_stored = refl

run-published_first_example :
    (before : List Call) × (req : RecordRequest) × (after_it : List Call) × (mid : RecordDto)
    × (rest ≡ before ++ confirm req ∷ after_it)
    × (lookup (key "c_1" "u") (run auth uuid before drafted).items ≡ some mid)
    × (to_lower mid.status ≡ "published")
    × (day : String) × (submitting : RecordRequest) × In (submit day submitting) before
    × (key "c_1" "u" ≡ key submitting.subject.company_id submitting.record_id)
run-published_first_example =
    run-published_first auth uuid rest drafted (key "c_1" "u") first_draft done uuid-IsFresh
      drafted-IsValid (today_filled, (tt, tt)) draft_stored refl done_stored refl

named : cobo_iam_services.GoText.is_blank "u" ≡ false
unfolding cobo_iam_services.GoText.trim_space cobo_iam_services.GoText.is_space
named = refl

submit-confirm_example :
    (rec : RecordDto) × (lookup (key "c_1" "u") (confirm_record auth uuid request submitted).1.items
      ≡ some rec)
    × (rec.status ≡ "Completed")
    × (rec.published_date ≡ today)
unfolding cobo_iam_services.Authz.Client.require
submit-confirm_example =
    submit-confirm auth uuid today request drafted first_draft
      (IsValid-IsKeyed auth uuid drafted drafted-IsValid) named draft_stored refl refl

apply-replay_example :
    Agree
      (view (apply (creates first_draft ∷ updates done ∷ []) empty))
      (replay (creates first_draft ∷ updates done ∷ []) (λ c r. none))
unfolding lookup
apply-replay_example =
    apply-replay (creates first_draft ∷ updates done ∷ []) empty (λ c r. none)
      (is_plain_c_1, (is_plain_c_1, tt)) (λ c r p. refl)

lists : list_records auth uuid subject drafted ≡ (ok (first_draft ∷ []), drafted)
unfolding list_records cobo_iam_services.Authz.Client.require
    cobo_iam_services.Disclosure.Records.items_of create_record cobo_iam_services.GoText.trim_space
    cobo_iam_services.GoText.is_space cobo_iam_services.Disclosure.Dates.normalize_date
    cobo_iam_services.Dict.insert cobo_iam_services.Disclosure.Sanitize.sanitize_attachments
lists = refl

-- ===== src/Disclosure/Records.antt =====
-- internal/disclosure: the records of infra/inmemory/repository.go, and the handlers of
-- app/service.go that create, edit, submit, confirm and read them.
use cobo_iam_services.Base.{
  ℕ, ◌+◌, String, ◌<>◌, not, Option, none, some, List, [], ◌∷◌, ◌==◌, if◌then◌else◌,
}
use cobo_iam_services.Base.Results.{
  Error, new_http_error, invalid_request, state_conflict, Result, ok, err, Exec, pure, lift, unless,
  ◌>>=◌, ◌>>◌,
}
use cobo_iam_services.GoText.{is_blank, trim_space, to_lower}
use cobo_iam_services.Dict.{Dict, lookup, insert}
use cobo_iam_services.Authz.{AuthService, SubjectRef, text}
use cobo_iam_services.Disclosure.{RecordDto, RecordPayload}
use cobo_iam_services.Disclosure.Access.{authorize, record_resource}
use cobo_iam_services.Disclosure.Dates.{normalize_date}
use cobo_iam_services.Disclosure.Sanitize.{sanitize_attachments}

pub record CreateRecordRequest : Type 0 where
  pub subject : SubjectRef
  pub payload : RecordPayload

pub record UpdateRecordRequest : Type 0 where
  pub subject : SubjectRef
  pub record_id : String
  pub payload : RecordPayload

-- `SubmitRecordRequest`, `ConfirmRecordRequest` and `GetRecordRequest` have the same fields.
pub record RecordRequest : Type 0 where
  pub subject : SubjectRef
  pub record_id : String

-- The records of the repository, and how many identifiers the generator has given out.
pub record State : Type 0 where
  pub items : Dict RecordDto
  pub next_id : ℕ

unfoldable pub key : String → String → String
key company_id record_id = company_id <> ":" <> record_id

abbrev pub not_found : Error
not_found = new_http_error 404 invalid_request "record not found"

abbrev pub bad_request : String → Error
bad_request message = new_http_error 400 invalid_request message

abbrev pub or_not_found : Option RecordDto → Result RecordDto
or_not_found none = err not_found
or_not_found (some it) = ok it

-- infra/inmemory/repository.go
module _ where
  unfoldable pub create : RecordDto → Exec State RecordDto
  create rec s =
      (ok rec, record s { items = insert (key rec.company_id rec.record_id) rec s.items })

  unfoldable pub update : RecordDto → Exec State RecordDto
  update rec s = elim (lookup (key rec.company_id rec.record_id) s.items) [
    | none ↦ (err not_found, s)
    | some old ↦
        (ok rec, record s { items = insert (key rec.company_id rec.record_id) rec s.items })
  ]

  unfoldable pub find_by_id : String → String → Exec State RecordDto
  find_by_id company_id record_id s = (or_not_found (lookup (key company_id record_id) s.items), s)

  unfoldable pub items_of : String → Dict RecordDto → List RecordDto
  items_of company_id [] = []
  items_of company_id ((k, it) ∷ items) =
      let rest = items_of company_id items in
      if it.company_id == company_id then it ∷ rest else rest

  unfoldable pub list : String → Exec State (List RecordDto)
  list company_id s = (ok (items_of company_id s.items), s)

abbrev pub or_else : String → String → String
or_else fallback s = if s == "" then fallback else s

-- What the handlers write into a record.
module _ where
  unfoldable pub draft : SubjectRef → RecordPayload → String → String → RecordDto
  draft subject payload record_id planned_date = record {
    record_id = record_id;
    company_id = subject.company_id;
    type_id = trim_space payload.type_id;
    department_id = or_else "general" (trim_space payload.department_id);
    title = trim_space payload.title;
    summary = trim_space payload.summary;
    content = trim_space payload.content;
    planned_date = planned_date;
    published_date = "";
    status = "Draft";
    attachments = sanitize_attachments payload.attachments;
    evidence_link = trim_space payload.evidence_link;
    created_by = subject.user_id;
    updated_by = subject.user_id;
  }

  unfoldable pub edited : SubjectRef → RecordPayload → String → RecordDto → RecordDto
  edited subject payload planned_date cur = record cur {
    type_id = trim_space payload.type_id;
    department_id = or_else cur.department_id (trim_space payload.department_id);
    title = trim_space payload.title;
    summary = trim_space payload.summary;
    content = trim_space payload.content;
    planned_date = planned_date;
    attachments = sanitize_attachments payload.attachments;
    evidence_link = trim_space payload.evidence_link;
    updated_by = subject.user_id;
  }

  -- `today` is the day of the clock, written with the layout `2006-01-02`.
  unfoldable pub published : SubjectRef → String → RecordDto → RecordDto
  published subject today cur = record cur {
    status = "Published";
    published_date = today;
    updated_by = subject.user_id;
  }

  unfoldable pub completed : SubjectRef → RecordDto → RecordDto
  completed subject cur = record cur { status = "Completed"; updated_by = subject.user_id }

-- app/service.go, over an authorization service and a generator of identifiers
module _ (auth : AuthService) (new_uuid : ℕ → String) where
  abbrev next_uuid : Exec State String
  next_uuid s = (ok (new_uuid s.next_id), record s { next_id = s.next_id + 1 })

  -- the caller may do `action` to a stored record
  abbrev pub authorize_on : SubjectRef → String → String → RecordDto → Result (Unit {0})
  authorize_on subject action record_id cur =
      authorize auth subject action
        (record_resource record_id cur.department_id subject.membership_id (to_lower cur.status))

  -- the caller may create a record in the department that the request names, or in `general`
  abbrev pub may_create : CreateRecordRequest → Result (Unit {0})
  may_create req = authorize auth req.subject "disclosure.create" (
      record_resource "" (or_else "general" (trim_space req.payload.department_id))
        req.subject.membership_id "draft")

  unfoldable pub create_record : CreateRecordRequest → Exec State RecordDto
  unfolding create draft
  create_record req = unless (is_blank req.payload.title) (bad_request "title is required") (
      unless (is_blank req.payload.content) (bad_request "content is required") do
        planned_date ← lift (normalize_date req.payload.planned_date)
        lift (may_create req)
        record_id ← next_uuid
        create (draft req.subject req.payload record_id planned_date))

  unfoldable pub update_record : UpdateRecordRequest → Exec State RecordDto
  unfolding find_by_id
  update_record req = unless (is_blank req.record_id) (bad_request "record_id is required") do
    cur ← find_by_id req.subject.company_id req.record_id
    planned_date ← lift (normalize_date req.payload.planned_date)
    lift (authorize_on req.subject "disclosure.update" req.record_id cur)
    update (edited req.subject req.payload planned_date cur)

  unfoldable pub submit_record : String → RecordRequest → Exec State RecordDto
  unfolding find_by_id
  submit_record today req = unless (is_blank req.record_id) (bad_request "record_id is required") do
    cur ← find_by_id req.subject.company_id req.record_id
    lift (authorize_on req.subject "disclosure.submit" req.record_id cur)
    update (published req.subject today cur)

  unfoldable pub confirm_record : RecordRequest → Exec State RecordDto
  unfolding find_by_id
  confirm_record req = unless (is_blank req.record_id) (bad_request "record_id is required") do
    cur ← find_by_id req.subject.company_id req.record_id
    lift (authorize_on req.subject "disclosure.approve" req.record_id cur)
    unless (not (to_lower cur.status == "published"))
        (new_http_error 409 state_conflict "record is not in published state")
        (update (completed req.subject cur))

  unfoldable pub get_record : RecordRequest → Exec State RecordDto
  unfolding find_by_id
  get_record req = unless (is_blank req.record_id) (bad_request "record_id is required") do
    cur ← find_by_id req.subject.company_id req.record_id
    lift (authorize_on req.subject "disclosure.view" req.record_id cur)
    pure cur

  abbrev pub may_list : SubjectRef → Result (Unit {0})
  may_list subject = authorize auth subject "disclosure.view" (record {
    type = "disclosure_record";
    id = "";
    attributes = ("workflow_state", text "*") ∷ [];
  })

  unfoldable pub list_records : SubjectRef → Exec State (List RecordDto)
  unfolding list
  list_records subject = do lift (may_list subject); list subject.company_id

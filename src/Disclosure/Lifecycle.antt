-- ===== src/Disclosure/Lifecycle.antt =====
-- internal/disclosure: how a stored record changes. It is edited, published and completed, and is
-- never removed.
use cobo_iam_services.Base.{
  ℕ, ◌+◌, String, ◌≡◌, ◌↔◌, inl, inr, refl, ap, sym, ◌∙◌, subst, false, not, some, ◌==◌, arith,
  eq_iff, Option-cases,
}
use cobo_iam_services.Base.Results.{ok, Exec, ◌>>=◌}
use cobo_iam_services.Base.Steps.{guard-ok}
use cobo_iam_services.Base.Ends.{Ends, fails, succeeds, lift-Ends, unless-Ends, Ends-ok}
use cobo_iam_services.GoText.{is_blank, to_lower}
use cobo_iam_services.Dict.{lookup, insert}
use cobo_iam_services.Authz.{AuthService}
use cobo_iam_services.Disclosure.{RecordDto}
use cobo_iam_services.Disclosure.Dates.{normalize_date}
use cobo_iam_services.Disclosure.Records.{
  State, not_found, RecordRequest, UpdateRecordRequest, key, find_by_id, update, update_record,
  submit_record, confirm_record, edited, published, completed, authorize_on, CreateRecordRequest,
  create_record, create, draft, may_create,
}

-- Every record is under its own key.
unfoldable pub IsKeyed : State → Type 0
IsKeyed s =
    (k : String) (it : RecordDto) → lookup k s.items ≡ some it → k ≡ key it.company_id it.record_id

-- The record under a key is replaced by one that is related to it, and nothing else changes.
unfoldable pub Replaces {ℓ} :
    State → String → (RecordDto → RecordDto → Type ℓ) → RecordDto → State → Type ℓ
Replaces s k R rec s' =
    (cur : RecordDto) × (lookup k s.items ≡ some cur)
    × R cur rec
    × (s' ≡ record s { items = insert k rec s.items })

abbrev SameKey : RecordDto → RecordDto → Type 0
SameKey cur rec = key rec.company_id rec.record_id ≡ key cur.company_id cur.record_id

find-Ends {ℓ} :
    (company_id record_id : String) (f : RecordDto → Exec State RecordDto) (s : State)
    {P : RecordDto → State → Type ℓ}
    → ((cur : RecordDto)
        → lookup (key company_id record_id) s.items ≡ some cur
        → Ends s P (f cur s))
    → Ends s P ((find_by_id company_id record_id >>= f) s)
unfolding find_by_id
find-Ends company_id record_id f s continues =
    elim (Option-cases (lookup (key company_id record_id) s.items)) [
      | inl absent ↦ fails not_found (rw absent refl)
      | inr (cur, found) ↦ rw found (continues cur found)
    ]

pub update-written :
    (s : State) (cur rec : RecordDto)
    → lookup (key rec.company_id rec.record_id) s.items ≡ some cur
    → update rec s
      ≡ (ok rec, record s { items = insert (key rec.company_id rec.record_id) rec s.items })
unfolding update
update-written s cur rec found = rw (update, found) refl

-- A write of a record that has the ids of the one found goes to the same key.
pub update-at :
    (s : State) (k : String) (cur rec : RecordDto)
    → IsKeyed s
    → lookup k s.items ≡ some cur
    → SameKey cur rec
    → update rec s ≡ (ok rec, record s { items = insert k rec s.items })
unfolding IsKeyed
update-at s k cur rec keyed found same =
    let at : key rec.company_id rec.record_id ≡ k = same ∙ sym (keyed k cur found) in
    let here : lookup (key rec.company_id rec.record_id) s.items ≡ some cur =
      subst (λ j. lookup j s.items ≡ some cur) (sym at) found in
    subst (λ j. update rec s ≡ (ok rec, record s { items = insert j rec s.items })) at
      (update-written s cur rec here)

update-Ends {ℓ} :
    (s : State) (k : String) (cur rec : RecordDto) (R : RecordDto → RecordDto → Type ℓ)
    → IsKeyed s
    → lookup k s.items ≡ some cur
    → SameKey cur rec
    → R cur rec
    → Ends s (Replaces s k R) (update rec s)
unfolding Replaces
update-Ends s k cur rec R keyed found same holds =
    succeeds rec (record s { items = insert k rec s.items })
      (update-at s k cur rec keyed found same) (cur, found, holds, refl)

published_iff : (status : String) → not (status == "published") ≡ false → status ≡ "published"
published_iff status h = (eq_iff status "published").0 (ground arith)

module _ (auth : AuthService) (new_uuid : ℕ → String) where
  -- What a successful edit, submission or confirmation does to the record it finds.
  abbrev pub Edits : UpdateRecordRequest → RecordDto → RecordDto → Type 0
  Edits req cur rec =
      (authorize_on auth new_uuid req.subject "disclosure.update" req.record_id cur ≡ ok tt)
      × (day : String) × (normalize_date req.payload.planned_date ≡ ok day)
      × (rec ≡ edited req.subject req.payload day cur)

  abbrev pub Submits : String → RecordRequest → RecordDto → RecordDto → Type 0
  Submits today req cur rec =
      (authorize_on auth new_uuid req.subject "disclosure.submit" req.record_id cur ≡ ok tt)
      × (rec ≡ published req.subject today cur)

  abbrev pub Confirms : RecordRequest → RecordDto → RecordDto → Type 0
  Confirms req cur rec =
      (authorize_on auth new_uuid req.subject "disclosure.approve" req.record_id cur ≡ ok tt)
      × (to_lower cur.status ≡ "published")
      × (rec ≡ completed req.subject cur)

  pub update_record-Ends :
      (req : UpdateRecordRequest) (s : State)
      → IsKeyed s
      → Ends s
          (Replaces s (key req.subject.company_id req.record_id) (Edits req))
          (update_record auth new_uuid req s)
  unfolding update_record edited
  update_record-Ends req s keyed = unless-Ends (is_blank req.record_id) _ _ s λ b.
      find-Ends req.subject.company_id req.record_id _ s λ cur found.
        lift-Ends (normalize_date req.payload.planned_date) _ s λ day dated.
          lift-Ends _ _ s λ u granted.
            update-Ends s _ cur _ (Edits req) keyed found refl (granted, day, dated, refl)

  pub submit_record-Ends :
      (today : String) (req : RecordRequest) (s : State)
      → IsKeyed s
      → Ends s
          (Replaces s (key req.subject.company_id req.record_id) (Submits today req))
          (submit_record auth new_uuid today req s)
  unfolding submit_record published
  submit_record-Ends today req s keyed = unless-Ends (is_blank req.record_id) _ _ s λ b.
      find-Ends req.subject.company_id req.record_id _ s λ cur found.
        lift-Ends _ _ s
          λ u granted. update-Ends s _ cur _ (Submits today req) keyed found refl (granted, refl)

  pub confirm_record-Ends :
      (req : RecordRequest) (s : State)
      → IsKeyed s
      → Ends s
          (Replaces s (key req.subject.company_id req.record_id) (Confirms req))
          (confirm_record auth new_uuid req s)
  unfolding confirm_record completed
  confirm_record-Ends req s keyed = unless-Ends (is_blank req.record_id) _ _ s λ b.
      find-Ends req.subject.company_id req.record_id _ s λ cur found. lift-Ends _ _ s λ u granted.
        unless-Ends _ _ _ s λ status.
          update-Ends s _ cur _ (Confirms req) keyed found refl
            (granted, published_iff (to_lower cur.status) status, refl)

  -- What a successful creation writes.
  unfoldable pub Drafts : CreateRecordRequest → State → RecordDto → State → Type 0
  Drafts req s rec s' =
      (is_blank req.payload.title ≡ false)
      × (is_blank req.payload.content ≡ false)
      × (day : String) × (normalize_date req.payload.planned_date ≡ ok day)
      × (rec ≡ draft req.subject req.payload (new_uuid s.next_id) day)
      × (s' ≡ record {
        items = insert (key rec.company_id rec.record_id) rec s.items;
        next_id = s.next_id + 1;
      })

  pub create_record-Ends :
      (req : CreateRecordRequest) (s : State)
      → Ends s (Drafts req s) (create_record auth new_uuid req s)
  unfolding create_record create Drafts draft
  create_record-Ends req s = unless-Ends (is_blank req.payload.title) _ _ s λ titled.
      unless-Ends (is_blank req.payload.content) _ _ s λ filled.
        lift-Ends (normalize_date req.payload.planned_date) _ s λ day dated.
          lift-Ends (may_create auth new_uuid req) _ s λ u granted.
            succeeds (draft req.subject req.payload (new_uuid s.next_id) day) _ refl
              (titled, filled, day, dated, refl, refl)

  -- A confirmation succeeds exactly where its request names a record, that record is stored for the
  -- caller's company, the caller is authorized to approve it, and its status is published, letter
  -- case aside; it then completes that record and changes nothing else. Each record is stored under
  -- its own key.
  pub confirm_record_iff :
      (req : RecordRequest) (s : State) (rec : RecordDto) (s' : State)
      → IsKeyed s
      → (confirm_record auth new_uuid req s ≡ (ok rec, s')) ↔ (
          (is_blank req.record_id ≡ false)
          × Replaces s (key req.subject.company_id req.record_id) (Confirms req) rec s')
  unfolding confirm_record find_by_id Replaces completed IsKeyed
  confirm_record_iff req s rec s' keyed = (
    λ h. (
      (guard-ok (is_blank req.record_id) _ _ s s' rec h).0,
      Ends-ok (confirm_record-Ends req s keyed) h,
    ),
    λ (named, changed).
        let (cur, found, confirmed, next) = changed in
        let (granted, status, is) = confirmed in
        let same : SameKey cur rec = rw is refl in
        rw (named, found, granted, status)
          (subst (λ r. update r s ≡ (ok rec, s')) is
            (update-at s _ cur rec keyed found same ∙ ap (λ x. (ok rec, x)) (sym next))),
  )

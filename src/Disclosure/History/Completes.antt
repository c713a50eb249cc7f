-- ===== src/Disclosure/History/Completes.antt =====
-- A stored record can always be brought to completion: it is submitted, then confirmed.
use cobo_iam_services.Base.{ℕ, String, ◌≡◌, inl, inr, refl, ap, sym, ◌∙◌, subst, false, some}
use cobo_iam_services.Base.Results.{ok}
use cobo_iam_services.GoText.{is_blank, to_lower, lower_rune, of_code}
use cobo_iam_services.Dict.{lookup, insert, lookup-insert_cases, lookup-insert_same}
use cobo_iam_services.Authz.{AuthService}
use cobo_iam_services.Disclosure.{RecordDto}
use cobo_iam_services.Disclosure.Records.{
  State, RecordRequest, key, find_by_id, submit_record, confirm_record, published, completed,
  authorize_on,
}
use cobo_iam_services.Disclosure.Lifecycle.{IsKeyed, Replaces, update-at, confirm_record_iff}

abbrev stored_as : State → String → RecordDto → State
stored_as s k rec = record s { items = insert k rec s.items }

stored-IsKeyed :
    (s : State) (k : String) (rec : RecordDto)
    → IsKeyed s
    → k ≡ key rec.company_id rec.record_id
    → IsKeyed (stored_as s k rec)
unfolding IsKeyed
stored-IsKeyed s k rec keyed at = λ j it h. elim (lookup-insert_cases k j rec it s.items h) [
  | inr before ↦ keyed j it before
  | inl (same, is) ↦ sym same ∙ (at ∙ ap (λ (r : RecordDto). key r.company_id r.record_id) is)
]

published-lower : to_lower "Published" ≡ "published"
unfolding to_lower lower_rune of_code
published-lower = refl

module _ (auth : AuthService) (new_uuid : ℕ → String) (today : String) (req : RecordRequest)
    (s : State) (cur : RecordDto) where
  submit_record-lem :
      IsKeyed s
      → is_blank req.record_id ≡ false
      → lookup (key req.subject.company_id req.record_id) s.items ≡ some cur
      → authorize_on auth new_uuid req.subject "disclosure.submit" req.record_id cur ≡ ok tt
      → submit_record auth new_uuid today req s ≡ (
        ok (published req.subject today cur),
        stored_as s (key req.subject.company_id req.record_id) (published req.subject today cur),
      )
  unfolding submit_record find_by_id published
  submit_record-lem keyed named found granted =
      rw (named, found, granted) (update-at s _ cur _ keyed found refl)

  -- A submission and then a confirmation complete any record that is stored for the caller's
  -- company, whatever its status, if the caller is authorized to submit the record as it is stored
  -- and to approve it once published. The record is stored as completed, with the day of the
  -- submission, under the same key. Each record is stored under its own key.
  pub submit-confirm :
      IsKeyed s
      → is_blank req.record_id ≡ false
      → lookup (key req.subject.company_id req.record_id) s.items ≡ some cur
      → authorize_on auth new_uuid req.subject "disclosure.submit" req.record_id cur ≡ ok tt
      → authorize_on auth new_uuid req.subject "disclosure.approve" req.record_id
          (published req.subject today cur)
        ≡ ok tt
      → (rec : RecordDto) × (lookup
            (key req.subject.company_id req.record_id)
            (confirm_record auth new_uuid req (submit_record auth new_uuid today req s).1).1.items
          ≡ some rec)
        × (rec.status ≡ "Completed")
        × (rec.published_date ≡ today)
  unfolding Replaces published completed IsKeyed
  submit-confirm keyed named found may_submit may_approve =
      let k = key req.subject.company_id req.record_id in
      let mid = published req.subject today cur in
      let next = stored_as s k mid in
      let done = completed req.subject mid in
      let submitted = submit_record-lem keyed named found may_submit in
      let at : lookup k next.items ≡ some mid = lookup-insert_same k mid s.items in
      let confirmed =
        (confirm_record_iff auth new_uuid req next done (stored_as next k done)
            (stored-IsKeyed s k mid keyed (keyed k cur found))).1
          (named, (mid, at, (may_approve, published-lower, refl), refl)) in
      (
        done,
        subst (λ r. lookup k (confirm_record auth new_uuid req r.1).1.items ≡ some done)
            (sym submitted)
            (subst (λ r. lookup k r.1.items ≡ some done) (sym confirmed)
              (lookup-insert_same k done next.items)),
        refl,
        refl,
      )

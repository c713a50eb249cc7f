-- ===== src/Disclosure/History.antt =====
-- Sequences of the calls that write records: each record keeps its key, and passes from draft to
-- published to completed.
pub mod Stages
pub mod Published
pub mod Completes
use cobo_iam_services.Base.{
  ℕ, ◌+◌, ◌≤◌, ◌<◌, String, ◌≡◌, ◌≢◌, ◌⊎◌, inl, inr, refl, ap, sym, ◌∙◌, subst, true, some, List,
  [], ◌∷◌, arith, All, ne_of_eq-false,
}
use cobo_iam_services.Base.Ends.{Ends, fails, succeeds}
use cobo_iam_services.GoText.{to_lower, lower_rune, of_code}
use cobo_iam_services.Dict.{
  lookup, insert, lookup-insert_cases, lookup-insert_other, lookup-insert_same,
}
use cobo_iam_services.Authz.{AuthService}
use cobo_iam_services.Workflow.{ikey}
use cobo_iam_services.Workflow.Keys.{ikey_inj, is_plain}
use cobo_iam_services.Workflow.Calls.{IsFresh}
use cobo_iam_services.Disclosure.{RecordDto}
use cobo_iam_services.Disclosure.Records.{
  State, RecordRequest, UpdateRecordRequest, CreateRecordRequest, key, update_record, submit_record,
  confirm_record, create_record, edited, published, completed, draft,
}
use cobo_iam_services.Disclosure.Lifecycle.{
  IsKeyed, Replaces, Edits, Submits, Confirms, Drafts, update_record-Ends, submit_record-Ends,
  confirm_record-Ends, create_record-Ends,
}

pub data Call : Type 0 where
  create : CreateRecordRequest → Call
  update : UpdateRecordRequest → Call
  submit : String → RecordRequest → Call
  confirm : RecordRequest → Call

-- The company of the caller who creates a record has no colon in its id, and the clock's day is a
-- text.
abbrev pub IsPlainCall : Call → Type 0
IsPlainCall (create req) = is_plain req.subject.company_id ≡ true
IsPlainCall (update req) = Unit
IsPlainCall (submit today req) = today ≢ ""
IsPlainCall (confirm req) = Unit

-- Records with the same key, for a plain company, are the same record's.
pub key_inj :
    (c d x y : String)
    → is_plain c ≡ true
    → is_plain d ≡ true
    → key c x ≡ key d y
    → (c ≡ d) × (x ≡ y)
unfolding key ikey
key_inj c d x y p q e = ikey_inj c d x y p q e

-- A draft has no day of publication; a published or completed record has one.
unfoldable pub IsStaged : RecordDto → Type 0
IsStaged it =
    ((it.status ≡ "Draft") × (it.published_date ≡ ""))
    ⊎ (((it.status ≡ "Published") ⊎ (it.status ≡ "Completed")) × (it.published_date ≢ ""))

-- A step keeps the ids and the stage's coherence.
pub data Kept (cur rec : RecordDto) : Type 0 where
  kept :
      rec.company_id ≡ cur.company_id
      → rec.record_id ≡ cur.record_id
      → (IsStaged cur → IsStaged rec)
      → Kept cur rec

pub draft-differs : to_lower "Draft" ≢ "published"
unfolding to_lower lower_rune of_code
draft-differs h = ne_of_eq-false {s = "draft"} {t = "published"} refl h

module _ (auth : AuthService) (new_uuid : ℕ → String) where
  abbrev pub after : Call → State → State
  after (create req) s = (create_record auth new_uuid req s).1
  after (update req) s = (update_record auth new_uuid req s).1
  after (submit today req) s = (submit_record auth new_uuid today req s).1
  after (confirm req) s = (confirm_record auth new_uuid req s).1

  unfoldable pub run : List Call → State → State
  run [] s = s
  run (c ∷ calls) s = run calls (after c s)

  -- A record is under its own key, for a plain company, with one of the first `n` identifiers.
  unfoldable pub Stands : ℕ → String → RecordDto → Type 0
  Stands n k it =
      (k ≡ key it.company_id it.record_id)
      × (is_plain it.company_id ≡ true)
      × (m : ℕ) × (m < n)
      × (it.record_id ≡ new_uuid m)

  unfoldable pub IsValid : State → Type 0
  unfolding Stands IsStaged
  IsValid s =
      (k : String) (it : RecordDto)
      → lookup k s.items ≡ some it
      → Stands s.next_id k it × IsStaged it

  pub IsValid-IsKeyed : (s : State) → IsValid s → IsKeyed s
  unfolding IsKeyed IsValid Stands
  IsValid-IsKeyed s valid k it found = (valid k it found).0.0

  -- What a call that succeeds does to the record that is stored under a key.
  pub data Acts (k : String) (cur rec : RecordDto) : Call → Type 0 where
    edits :
        {req : UpdateRecordRequest}
        → k ≡ key req.subject.company_id req.record_id
        → Edits auth new_uuid req cur rec
        → Acts k cur rec (update req)
    publishes :
        {today : String} {req : RecordRequest}
        → k ≡ key req.subject.company_id req.record_id
        → Submits auth new_uuid today req cur rec
        → Acts k cur rec (submit today req)
    completes :
        {req : RecordRequest}
        → k ≡ key req.subject.company_id req.record_id
        → Confirms auth new_uuid req cur rec
        → Acts k cur rec (confirm req)

  -- What becomes of the record under a key by a sequence of calls: each of them leaves it as it is, or
  -- acts on it as that very call does.
  pub data Later (k : String) : List Call → RecordDto → RecordDto → Type 0 where
    ends : {it : RecordDto} → Later k [] it it
    idle :
        {c : Call} {calls : List Call} {it rec : RecordDto}
        → Later k calls it rec
        → Later k (c ∷ calls) it rec
    acts :
        {c : Call} {calls : List Call} {it mid rec : RecordDto}
        → Acts k it mid c
        → Later k calls mid rec
        → Later k (c ∷ calls) it rec

  -- What a call does: nothing, its action on one record, or a new draft.
  pub data Change (s : State) (c : Call) : State → Type 0 where
    same : Change s c s
    moves :
        (k : String) (cur rec : RecordDto) (s' : State)
        → lookup k s.items ≡ some cur
        → Acts k cur rec c
        → Kept cur rec
        → s' ≡ record s { items = insert k rec s.items }
        → Change s c s'
    makes :
        (rec : RecordDto) (s' : State)
        → is_plain rec.company_id ≡ true
        → rec.record_id ≡ new_uuid s.next_id
        → IsStaged rec
        → s' ≡ record {
          items = insert (key rec.company_id rec.record_id) rec s.items;
          next_id = s.next_id + 1;
        }
        → Change s c s'

  update-Change :
      (req : UpdateRecordRequest) (s : State)
      → IsKeyed s
      → Change s (update req) (after (update req) s)
  unfolding Replaces edited IsStaged
  update-Change req s keyed = elim (update_record-Ends auth new_uuid req s keyed) [
    | fails e h ↦ subst (λ r. Change s (update req) r.1) (sym h) same
    | succeeds rec s' h (cur, found, changed, next) ↦
        let (granted, day, dated, is) = changed in
        subst (λ r. Change s (update req) r.1) (sym h)
          (moves _ cur rec s' found (edits refl (granted, day, dated, is))
            (kept (rw is refl) (rw is refl) (rw is (λ stage. stage))) next)
  ]

  submit-Change :
      (today : String) (req : RecordRequest) (s : State)
      → today ≢ ""
      → IsKeyed s
      → Change s (submit today req) (after (submit today req) s)
  unfolding Replaces published IsStaged
  submit-Change today req s dated keyed =
      elim (submit_record-Ends auth new_uuid today req s keyed) [
        | fails e h ↦ subst (λ r. Change s (submit today req) r.1) (sym h) same
        | succeeds rec s' h (cur, found, changed, next) ↦
            let (granted, is) = changed in
            subst (λ r. Change s (submit today req) r.1) (sym h)
              (moves _ cur rec s' found (publishes refl (granted, is))
                (kept (rw is refl) (rw is refl) (rw is (λ stage. inr (inl refl, dated)))) next)
      ]

  completes-IsStaged :
      (req : RecordRequest) (cur : RecordDto)
      → to_lower cur.status ≡ "published"
      → IsStaged cur
      → IsStaged (completed req.subject cur)
  unfolding IsStaged completed
  completes-IsStaged req cur status (inl (drafted, undated)) =
      elim (draft-differs (sym (ap to_lower drafted) ∙ status)) [ ]
  completes-IsStaged req cur status (inr (public, dated)) = inr (inr refl, dated)

  confirm-Change :
      (req : RecordRequest) (s : State) → IsKeyed s → Change s (confirm req) (after (confirm req) s)
  unfolding Replaces completed
  confirm-Change req s keyed = elim (confirm_record-Ends auth new_uuid req s keyed) [
    | fails e h ↦ subst (λ r. Change s (confirm req) r.1) (sym h) same
    | succeeds rec s' h (cur, found, changed, next) ↦
        let (granted, status, is) = changed in
        subst (λ r. Change s (confirm req) r.1) (sym h)
          (moves _ cur rec s' found (completes refl (granted, status, is))
            (kept (rw is refl) (rw is refl)
              (λ stage. subst (λ r. IsStaged r) (sym is) (completes-IsStaged req cur status stage)))
            next)
  ]

  create-Change :
      (req : CreateRecordRequest) (s : State)
      → is_plain req.subject.company_id ≡ true
      → Change s (create req) (after (create req) s)
  unfolding Drafts draft IsStaged
  create-Change req s plain = elim (create_record-Ends auth new_uuid req s) [
    | fails e h ↦ subst (λ r. Change s (create req) r.1) (sym h) same
    | succeeds rec s' h (titled, filled, day, dated, is, next) ↦
        subst (λ r. Change s (create req) r.1) (sym h)
          (makes rec s' (rw is plain) (rw is refl) (rw is (inl (refl, refl))) next)
  ]

  pub after-Change : (c : Call) (s : State) → IsPlainCall c → IsKeyed s → Change s c (after c s)
  after-Change (create req) s plain keyed = create-Change req s plain
  after-Change (update req) s plain keyed = update-Change req s keyed
  after-Change (submit today req) s dated keyed = submit-Change today req s dated keyed
  after-Change (confirm req) s plain keyed = confirm-Change req s keyed

-- ===== src/Disclosure/History/Published.antt =====
-- A record is completed by a confirmation that found it published, after a submission.
use cobo_iam_services.Base.{
  ℕ, String, ◌≡◌, ◌≢◌, inl, inr, refl, ap, sym, ◌∙◌, Option, some, List, [], ◌∷◌, ◌++◌, ◌⊎◌, In,
  here, there, All, ne_of_eq-false,
}
use cobo_iam_services.GoText.{to_lower}
use cobo_iam_services.Dict.{lookup}
use cobo_iam_services.Authz.{AuthService}
use cobo_iam_services.Workflow.Calls.{IsFresh}
use cobo_iam_services.Disclosure.{RecordDto}
use cobo_iam_services.Disclosure.Records.{State, RecordRequest, key, edited, published}
use cobo_iam_services.Disclosure.History.{
  Call, submit, confirm, IsPlainCall, Later, ends, idle, acts, Acts, edits, publishes, completes,
  draft-differs, after, run, IsValid,
}
use cobo_iam_services.Disclosure.History.Stages.{after-Stored, then}

some_inj : {x y : RecordDto} → Path (Option RecordDto) (some x) (some y) → x ≡ y
some_inj h = cc

module _ (auth : AuthService) (new_uuid : ℕ → String) where
  -- A confirmation among the calls that found a published record stored under the key.
  abbrev Confirmed : List Call → State → String → RecordDto → Type 0
  Confirmed calls s k it =
      (before : List Call) × (req : RecordRequest) × (rest : List Call) × (mid : RecordDto) × (calls
        ≡ before ++ confirm req ∷ rest)
      × (lookup k (run auth new_uuid before s).items ≡ some mid)
      × (to_lower mid.status ≡ "published")
      × Later auth new_uuid k before it mid

  -- A call that completes a record is a confirmation which finds it published.
  act-completes :
      (k : String) (c : Call) (it mid : RecordDto)
      → Acts auth new_uuid k it mid c
      → it.status ≢ "Completed"
      → (mid.status ≢ "Completed")
        ⊎ ((req : RecordRequest) × (c ≡ confirm req) × (to_lower it.status ≡ "published"))
  unfolding edited published
  act-completes k _ it mid (edits at (granted, day, dated, is)) other =
      inl (λ e. other (sym (ap (λ (r : RecordDto). r.status) is) ∙ e))
  act-completes k _ it mid (publishes at (granted, is)) other = inl (λ e.
      ne_of_eq-false {s = "Published"} {t = "Completed"} refl
        (sym (ap (λ (r : RecordDto). r.status) is) ∙ e))
  act-completes k _ it mid (completes {req = req} at (granted, status, is)) other =
      inr (req, refl, status)

  run-Confirmed :
      (calls : List Call) (s : State) (k : String) (it rec : RecordDto)
      → IsFresh new_uuid
      → IsValid auth new_uuid s
      → All IsPlainCall calls
      → lookup k s.items ≡ some it
      → it.status ≢ "Completed"
      → lookup k (run auth new_uuid calls s).items ≡ some rec
      → rec.status ≡ "Completed"
      → Confirmed calls s k it
  unfolding run
  run-Confirmed [] s k it rec fresh valid plain found other stored done =
      elim (other (ap (λ (r : RecordDto). r.status) (some_inj (sym found ∙ stored)) ∙ done)) [ ]
  run-Confirmed (c ∷ calls) s k it rec fresh valid (plain, rest) found other stored done =
      let (valid', (mid, at, cause)) =
        after-Stored auth new_uuid c s k it fresh valid plain found in
      let further : (mid.status ≢ "Completed") → Confirmed (c ∷ calls) s k it = λ still.
        let (before, req, more, last, is, seen, status, later) =
          run-Confirmed calls (after auth new_uuid c s) k mid rec fresh valid' rest at still stored
            done in
        (
          c ∷ before,
          req,
          more,
          last,
          ap (λ l. c ∷ l) is,
          seen,
          status,
          then auth new_uuid k c before it mid last cause later,
        ) in
      elim cause [
        | inl is ↦ further (λ e. other (sym (ap (λ (r : RecordDto). r.status) is) ∙ e))
        | inr act ↦ elim (act-completes k c it mid act other) [
          | inl still ↦ further still
          | inr (req, is, status) ↦
              ([], req, calls, it, ap (λ x. x ∷ calls) is, found, status, ends)
        ]
      ]

  -- A record that was a draft and is published was submitted.
  Later-submits :
      (k : String) (calls : List Call) (it rec : RecordDto)
      → Later auth new_uuid k calls it rec
      → it.status ≡ "Draft"
      → to_lower rec.status ≡ "published"
      → (today : String) × (req : RecordRequest) × In (submit today req) calls
        × (k ≡ key req.subject.company_id req.record_id)
  unfolding edited
  Later-submits k _ it _ ends drafted status =
      elim (draft-differs (sym (ap to_lower drafted) ∙ status)) [ ]
  Later-submits k _ it rec (idle {calls = calls} later) drafted status =
      let (today, req, i, at) = Later-submits k calls it rec later drafted status in
      (today, req, there i, at)
  Later-submits k _ it rec
        (acts {calls = calls} {mid = mid} (edits at (granted, day, dated, is)) later) drafted
        status =
      let (today, req, i, at') =
        Later-submits k calls mid rec later (ap (λ (r : RecordDto). r.status) is ∙ drafted)
          status in
      (today, req, there i, at')
  Later-submits k _ it rec (acts (publishes {today = today} {req = req} at submits) later) drafted
        status =
      (today, req, here, at)
  Later-submits k _ it rec (acts (completes at (granted, public, is)) later) drafted status =
      elim (draft-differs (sym (ap to_lower drafted) ∙ public)) [ ]

-- If a record is a draft and is stored as completed after some calls, then one of the calls is a
-- confirmation before which the record was stored as published, and before that one there is a
-- submission of the record. The conditions are those under which no record is lost.
pub run-published_first :
    (auth : AuthService) (new_uuid : ℕ → String) (calls : List Call) (s : State) (k : String)
    (it rec : RecordDto)
    → IsFresh new_uuid
    → IsValid auth new_uuid s
    → All IsPlainCall calls
    → lookup k s.items ≡ some it
    → it.status ≡ "Draft"
    → lookup k (run auth new_uuid calls s).items ≡ some rec
    → rec.status ≡ "Completed"
    → (before : List Call) × (req : RecordRequest) × (rest : List Call) × (mid : RecordDto) × (calls
        ≡ before ++ confirm req ∷ rest)
      × (lookup k (run auth new_uuid before s).items ≡ some mid)
      × (to_lower mid.status ≡ "published")
      × (today : String) × (submitted : RecordRequest) × In (submit today submitted) before
      × (k ≡ key submitted.subject.company_id submitted.record_id)
run-published_first auth new_uuid calls s k it rec fresh valid plain found drafted stored done =
    let (before, req, rest, mid, is, seen, status, later) =
      run-Confirmed auth new_uuid calls s k it rec fresh valid plain found
        (λ e. ne_of_eq-false {s = "Draft"} {t = "Completed"} refl (sym drafted ∙ e)) stored done in
    let (today, submitted, i, at) =
      Later-submits auth new_uuid k before it mid later drafted status in
    (before, req, rest, mid, is, seen, status, today, submitted, i, at)

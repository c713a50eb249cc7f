-- ===== src/Disclosure/History/Stages.antt =====
-- What holds of the stored records after any sequence of calls.
use cobo_iam_services.Base.{
  ℕ, ◌+◌, ◌≤◌, String, ◌≡◌, ◌≢◌, inl, inr, refl, sym, ◌∙◌, subst, true, Option, some, List, [], ◌∷◌,
  ◌⊎◌, arith, All, ne_of_eq-false, Bool-cases, ◌==◌, eq_iff,
}
use cobo_iam_services.Dict.{lookup, lookup-insert_cases, lookup-insert_other, lookup-insert_same}
use cobo_iam_services.Authz.{AuthService}
use cobo_iam_services.Workflow.Keys.{is_plain}
use cobo_iam_services.Workflow.Calls.{IsFresh}
use cobo_iam_services.Disclosure.{RecordDto}
use cobo_iam_services.Disclosure.Records.{State, key}
use cobo_iam_services.Disclosure.History.{
  Call, IsPlainCall, key_inj, Later, ends, idle, acts, Acts, IsStaged, after, run, Stands, IsValid,
  IsValid-IsKeyed, Kept, kept, Change, same, moves, makes, after-Change,
}

some_inj : {x y : RecordDto} → Path (Option RecordDto) (some x) (some y) → x ≡ y
some_inj h = cc

module _ (auth : AuthService) (new_uuid : ℕ → String) where
  Holds : ℕ → String → RecordDto → Type 0
  unfolding Stands
  Holds n k it = Stands auth new_uuid n k it × IsStaged it

  Stands-mono :
      (n m : ℕ) (k : String) (it : RecordDto)
      → n ≤ m
      → Stands auth new_uuid n k it
      → Stands auth new_uuid m k it
  unfolding Stands
  Stands-mono n m k it le (at, plain, i, lt, id) = (at, plain, i, omega (arith, le, lt), id)

  Stands-Kept :
      (n : ℕ) (k : String) (cur rec : RecordDto)
      → Kept cur rec
      → Stands auth new_uuid n k cur
      → Stands auth new_uuid n k rec
  unfolding Stands
  Stands-Kept n k cur rec (kept company id stage) (at, plain, i, lt, given) =
      (rw (company, id) at, rw company plain, i, lt, id ∙ given)

  Holds-at :
      (n : ℕ) {k j : String} {it rec : RecordDto} → k ≡ j → it ≡ rec → Holds n k it → Holds n j rec
  Holds-at n {j = j} {it = it} p q h = subst (λ r. Holds n j r) q (subst (λ i. Holds n i it) p h)

  Change-IsValid :
      (s s' : State) (c : Call)
      → Change auth new_uuid s c s'
      → IsValid auth new_uuid s
      → IsValid auth new_uuid s'
  unfolding IsValid Holds
  Change-IsValid s _ c same valid = valid
  Change-IsValid s _ c (moves k cur rec s' found step keeps is) valid = λ j it h.
      elim (lookup-insert_cases k j rec it s.items (subst (λ t. lookup j t.items ≡ some it) is h)) [
        | inr before ↦ rw is (valid j it before)
        | inl (at, written) ↦
            let (stands, stage) = valid k cur found in
            rw is (
              Holds-at s.next_id at written
                (Stands-Kept s.next_id k cur rec keeps stands, staged keeps stage))
      ]
    where
      staged : Kept cur rec → IsStaged cur → IsStaged rec
      staged (kept company id stage) = stage
  Change-IsValid s _ c (makes rec s' plain id stage is) valid = λ j it h.
      elim (lookup-insert_cases (key rec.company_id rec.record_id) j rec it s.items
        (subst (λ t. lookup j t.items ≡ some it) is h)) [
          | inr before ↦
              let (stands, before_stage) = valid j it before in
              rw is (Stands-mono s.next_id (s.next_id + 1) j it (omega arith) stands, before_stage)
          | inl (at, written) ↦ rw is (
              Holds-at (s.next_id + 1) at written
                ((refl, plain, s.next_id, omega arith, id), stage))
        ]

  -- Every sequence of calls keeps the records valid: each is under its own key, for a company without
  -- a colon in its id, with an identifier that was given out, and it has a day of publication exactly
  -- if it is no draft but published or completed. Companies of callers that create records have no
  -- colon in their id, and the clock's days are not empty.
  pub run-IsValid_stages :
      (calls : List Call) (s : State)
      → IsValid auth new_uuid s
      → All IsPlainCall calls
      → IsValid auth new_uuid (run auth new_uuid calls s)
  unfolding run
  run-IsValid_stages [] s valid plain = valid
  run-IsValid_stages (c ∷ calls) s valid (plain, rest) =
      run-IsValid_stages calls (after auth new_uuid c s)
        (Change-IsValid s _ c
          (after-Change auth new_uuid c s plain (IsValid-IsKeyed auth new_uuid s valid)) valid)
        rest

  -- A new record's key is not among the old ones.
  makes-differs :
      (s : State) (k : String) (it rec : RecordDto)
      → is_plain rec.company_id ≡ true
      → rec.record_id ≡ new_uuid s.next_id
      → IsFresh new_uuid
      → Stands auth new_uuid s.next_id k it
      → key rec.company_id rec.record_id ≢ k
  unfolding Stands IsFresh
  makes-differs s k it rec plain id fresh (at, plain', i, lt, given) e =
      let (_, ids) =
        key_inj rec.company_id it.company_id rec.record_id it.record_id plain plain' (e ∙ at) in
      let again = fresh s.next_id i (sym id ∙ (ids ∙ given)) in omega (arith, again, lt)

  -- After a call the key of a record holds the record, or what the call made of it.
  abbrev pub Stored : String → RecordDto → Call → State → Type 0
  Stored k it c s' =
      (rec : RecordDto) × (lookup k s'.items ≡ some rec)
      × ((rec ≡ it) ⊎ Acts auth new_uuid k it rec c)

  Change-Stored :
      (s s' : State) (c : Call) (k : String) (it : RecordDto)
      → Change auth new_uuid s c s'
      → IsFresh new_uuid
      → IsValid auth new_uuid s
      → lookup k s.items ≡ some it
      → Stored k it c s'
  unfolding IsValid
  Change-Stored s _ c k it same fresh valid at = (it, at, inl refl)
  Change-Stored s _ c k it (moves j cur rec s' found act keeps is) fresh valid at =
      elim (Bool-cases (j == k)) [
        | inl e ↦
            let same_key : j ≡ k = (eq_iff j k).0 e in
            let was : cur ≡ it =
              some_inj (sym (subst (λ i. lookup i s.items ≡ some cur) same_key found) ∙ at) in
            (
              rec,
              rw (is, same_key) (lookup-insert_same k rec s.items),
              inr (
                  subst (λ r. Acts auth new_uuid k r rec c) was
                    (subst (λ i. Acts auth new_uuid i cur rec c) same_key act)),
            )
        | inr other ↦
            (it, rw is (lookup-insert_other j k rec s.items (ne_of_eq-false other) ∙ at), inl refl)
      ]
  Change-Stored s _ c k it (makes rec s' plain id stage is) fresh valid at = (
    it,
    rw is (
        lookup-insert_other _ k rec s.items
          (makes-differs s k it rec plain id fresh (valid k it at).0)
        ∙ at),
    inl refl,
  )

  pub after-Stored :
      (c : Call) (s : State) (k : String) (it : RecordDto)
      → IsFresh new_uuid
      → IsValid auth new_uuid s
      → IsPlainCall c
      → lookup k s.items ≡ some it
      → IsValid auth new_uuid (after auth new_uuid c s) × Stored k it c (after auth new_uuid c s)
  after-Stored c s k it fresh valid plain at =
      let change = after-Change auth new_uuid c s plain (IsValid-IsKeyed auth new_uuid s valid) in
      (Change-IsValid s _ c change valid, Change-Stored s _ c k it change fresh valid at)

  pub then :
      (k : String) (c : Call) (calls : List Call) (it mid rec : RecordDto)
      → (mid ≡ it) ⊎ Acts auth new_uuid k it mid c
      → Later auth new_uuid k calls mid rec
      → Later auth new_uuid k (c ∷ calls) it rec
  then k c calls it mid rec (inl is) later =
      idle (subst (λ i. Later auth new_uuid k calls i rec) is later)
  then k c calls it mid rec (inr act) later = acts act later

  -- A stored record is never lost: after any calls its key holds what the calls made of it, each of
  -- which left it as it was or, if it succeeded, edited it by its payload, published it on its day, or
  -- completed it where it was published, for a caller who was authorized to. The state is valid, the
  -- generator gives no identifier twice, companies of callers that create records have no colon in
  -- their id, and the clock's days are not empty.
  pub run-Later :
      (calls : List Call) (s : State) (k : String) (it : RecordDto)
      → IsFresh new_uuid
      → IsValid auth new_uuid s
      → All IsPlainCall calls
      → lookup k s.items ≡ some it
      → (rec : RecordDto) × (lookup k (run auth new_uuid calls s).items ≡ some rec)
        × Later auth new_uuid k calls it rec
  unfolding run
  run-Later [] s k it fresh valid plain found = (it, found, ends)
  run-Later (c ∷ calls) s k it fresh valid (plain, rest) found =
      let (valid', (mid, at, cause)) = after-Stored c s k it fresh valid plain found in
      let (rec, stored, later) =
        run-Later calls (after auth new_uuid c s) k mid fresh valid' rest at in
      (rec, stored, then k c calls it mid rec cause later)

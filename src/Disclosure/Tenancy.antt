-- ===== src/Disclosure/Tenancy.antt =====
-- internal/disclosure/infra/inmemory/repository.go: the map of the records, which is keyed by a text,
-- read as what it stands for: a record for each company and record id.
use cobo_iam_services.Base.{
  ℕ, String, ◌≡◌, ◌↔◌, ◌⊎◌, refl, ap, sym, ◌∙◌, subst, true, ◌&&◌, Option, none, some, List, [],
  ◌∷◌, ◌==◌, arith, eq_iff, if◌then◌else◌, All, In, here, there, Bool-cases, Option-cases, inl, inr,
}
use cobo_iam_services.Base.Results.{ok, Result, lift}
use cobo_iam_services.Base.Steps.{step-ok}
use cobo_iam_services.Dict.{Dict, lookup, insert, lookup-insert}
use cobo_iam_services.Authz.{AuthService, SubjectRef}
use cobo_iam_services.Workflow.Keys.{is_plain}
use cobo_iam_services.Disclosure.{RecordDto}
use cobo_iam_services.Disclosure.Records.{
  State, key, create, update, items_of, list, list_records, may_list,
}
use cobo_iam_services.Disclosure.Lifecycle.{update-written}
use cobo_iam_services.Disclosure.History.{key_inj}

-- The abstract store: a company and a record id lead to a record.
abbrev pub View : Type 0
View = String → String → Option RecordDto

abbrev pub view : State → View
view s company_id record_id = lookup (key company_id record_id) s.items

abbrev pub written : RecordDto → View → View
written rec v company_id record_id =
    if rec.company_id == company_id && rec.record_id == record_id
    then some rec
    else v company_id record_id

pub data Op : Type 0 where
  creates updates : RecordDto → Op

abbrev pub company : Op → String
company (creates rec) = rec.company_id
company (updates rec) = rec.company_id

unfoldable pub apply : List Op → State → State
apply [] s = s
apply (creates rec ∷ ops) s = apply ops (create rec s).1
apply (updates rec ∷ ops) s = apply ops (update rec s).1

-- The same operations on the abstract store: an update of a record that is not there does nothing.
abbrev pub replaced : RecordDto → Option RecordDto → View → View
replaced rec none v = v
replaced rec (some old) v = written rec v

unfoldable pub replay : List Op → View → View
replay [] v = v
replay (creates rec ∷ ops) v = replay ops (written rec v)
replay (updates rec ∷ ops) v = replay ops (replaced rec (v rec.company_id rec.record_id) v)

-- Two stores that agree on companies without a colon in their id.
abbrev pub Agree : View → View → Type 0
Agree v w = (c r : String) → is_plain c ≡ true → v c r ≡ w c r

key_iff :
    (c d x y : String)
    → is_plain c ≡ true
    → is_plain d ≡ true
    → (key c x == key d y) ≡ (c == d && x == y)
key_iff c d x y p q = elim (Bool-cases (key c x == key d y)) [
  | inl e ↦
      let (a, b) = key_inj c d x y p q ((eq_iff (key c x) (key d y)).0 e) in
      ground (arith, e, eq_iff c d, eq_iff x y, a, b)
  | inr n ↦ elim (Bool-cases (c == d && x == y)) [
    | inl both ↦ grind (arith, n, both, eq_iff c d, eq_iff x y, eq_iff (key c x) (key d y))
    | inr some_other ↦ n ∙ sym some_other
  ]
]

insert-written :
    (rec : RecordDto) (s : State) (v : View)
    → is_plain rec.company_id ≡ true
    → Agree (view s) v
    → Agree
        (view (record s { items = insert (key rec.company_id rec.record_id) rec s.items }))
        (written rec v)
insert-written rec s v plain agree c r p =
    lookup-insert (key rec.company_id rec.record_id) (key c r) rec s.items
    ∙ (ap (λ b. if b then some rec else view s c r)
          (key_iff rec.company_id c rec.record_id r plain p)
        ∙ ap (λ o. if rec.company_id == c && rec.record_id == r then some rec else o) (agree c r p))

update-absent :
    (rec : RecordDto) (s : State)
    → lookup (key rec.company_id rec.record_id) s.items ≡ none
    → (update rec s).1 ≡ s
unfolding update
update-absent rec s absent = rw (update, absent) refl

update-Agree :
    (rec : RecordDto) (s : State) (v : View)
    → is_plain rec.company_id ≡ true
    → Agree (view s) v
    → Agree (view (update rec s).1) (replaced rec (v rec.company_id rec.record_id) v)
update-Agree rec s v plain agree =
    let same = agree rec.company_id rec.record_id plain in
    elim (Option-cases (lookup (key rec.company_id rec.record_id) s.items)) [
      | inl absent ↦
          subst (λ o. Agree (view (update rec s).1) (replaced rec o v)) (sym absent ∙ same)
            (subst (λ t. Agree (view t) v) (sym (update-absent rec s absent)) agree)
      | inr (old, found) ↦
          subst (λ o. Agree (view (update rec s).1) (replaced rec o v)) (sym found ∙ same)
            (subst (λ r. Agree (view r.1) (written rec v)) (sym (update-written s old rec found))
              (insert-written rec s v plain agree))
    ]

created :
    (rec : RecordDto) (s : State) (v : View)
    → is_plain rec.company_id ≡ true
    → Agree (view s) v
    → Agree (view (create rec s).1) (written rec v)
unfolding create
created rec s v plain agree = insert-written rec s v plain agree

-- The repository refines the abstract store: after any creations and updates of records, whose
-- companies have no colon in their id, it holds for each such company and each record id what the
-- abstract store holds after the same operations.
pub apply-replay :
    (ops : List Op) (s : State) (v : View)
    → All (λ op. is_plain (company op) ≡ true) ops
    → Agree (view s) v
    → Agree (view (apply ops s)) (replay ops v)
unfolding apply replay
apply-replay [] s v plain agree = agree
apply-replay (creates rec ∷ ops) s v (plain, rest) agree =
    apply-replay ops (create rec s).1 (written rec v) rest (created rec s v plain agree)
apply-replay (updates rec ∷ ops) s v (plain, rest) agree =
    apply-replay ops (update rec s).1 _ rest (update-Agree rec s v plain agree)

Entry : String → RecordDto → Dict RecordDto → Type 0
Entry company_id it items = (k : String) × In (k, it) items × (it.company_id ≡ company_id)

In-cons : {it head : RecordDto} {l : List RecordDto} → In it (head ∷ l) → (it ≡ head) ⊎ In it l
In-cons here = inl refl
In-cons (there m) = inr m

items_of-Entry :
    (company_id : String) (it : RecordDto) (items : Dict RecordDto)
    → In it (items_of company_id items)
    → Entry company_id it items
unfolding items_of Entry
items_of-Entry company_id it [] m = elim m [ ]
items_of-Entry company_id it ((k, head) ∷ items) m =
    elim (Bool-cases (head.company_id == company_id)) [
      | inl mine ↦ elim (In-cons (rw mine at m)) [
        | inl e ↦ (
          k,
          subst (λ h. In (k, it) ((k, h) ∷ items)) e here,
          ap (λ (r : RecordDto). r.company_id) e ∙ (eq_iff head.company_id company_id).0 mine,
        )
        | inr n ↦ let (j, at, is) = items_of-Entry company_id it items n in (j, there at, is)
      ]
      | inr other ↦
          let (j, at, is) = items_of-Entry company_id it items (rw other at m) in (j, there at, is)
    ]

Entry-items_of :
    (company_id : String) (it : RecordDto) (k : String) (items : Dict RecordDto)
    → In (k, it) items
    → it.company_id ≡ company_id
    → In it (items_of company_id items)
unfolding items_of
Entry-items_of company_id it k _ (here {xs = items}) is =
    rw ((eq_iff it.company_id company_id).1 is) here
Entry-items_of company_id it k _ (there {y = (j, head)} {xs = items} m) is =
    let rest = Entry-items_of company_id it k items m is in
    elim (Bool-cases (head.company_id == company_id)) [
      | inl mine ↦ rw mine (there rest)
      | inr other ↦ rw other rest
    ]

ok_inj : {x y : List RecordDto} → Path (Result (List RecordDto)) (ok x) (ok y) → x ≡ y
ok_inj h = cc

-- A list of records that is answered holds exactly the stored records of the caller's company, and
-- the store is as it was.
pub list_records_lem :
    (auth : AuthService) (new_uuid : ℕ → String) (subject : SubjectRef) (s s' : State)
    (items : List RecordDto)
    → list_records auth new_uuid subject s ≡ (ok items, s')
    → (s' ≡ s)
      × ((it : RecordDto)
          → In it items
            ↔ ((k : String) × In (k, it) s.items × (it.company_id ≡ subject.company_id)))
unfolding list_records list Entry
list_records_lem auth new_uuid subject s s' items answered =
    let (u, granted, listed) =
      step-ok (lift (may_list auth new_uuid subject)) _ s s' items answered in
    let is : items_of subject.company_id s.items ≡ items = ok_inj (ap (λ r. r.0) listed) in
    (
      sym (ap (λ r. r.1) listed),
      λ it. (
        λ m. items_of-Entry subject.company_id it s.items (subst (λ l. In it l) (sym is) m),
        λ (k, at, mine).
            subst (λ l. In it l) is (Entry-items_of subject.company_id it k s.items at mine),
      ),
    )

-- ===== src/Outbox/Lock.antt =====
-- An event that is locked, and the calls that leave it so.
use cobo_iam_services.Base.{
  ℕ, String, ◌≡◌, ◌≢◌, All, Option, refl, sym, subst, ◌∙◌, ap, true, List, [], ◌∷◌, arith, ◌==◌,
  eq_iff, eq_refl, ne_of_eq-false, inl, inr, Bool-cases, some, none, In, here, there,
}
use cobo_iam_services.Dict.{lookup, insert, lookup-insert_same, lookup-insert_other}
use cobo_iam_services.Outbox.{
  Item, Repository, InsertParams, is_due, batch, mark_processing, lock_pending_batch, insert_event,
  mark_processed, mark_retry, mark_failed_permanent, on_item,
}
use cobo_iam_services.Outbox.Batch.{In-batch}

-- No two entries have the same key.
unfoldable pub IsMap : Repository → Type 0
IsMap [] = Unit
IsMap ((k, it) ∷ r) = (lookup k r ≡ none) × IsMap r

pub insert-IsMap : (k : String) (it : Item) (r : Repository) → IsMap r → IsMap (insert k it r)
unfolding IsMap insert
insert-IsMap k it [] m = (unfold lookup in refl, tt)
insert-IsMap k it ((j, w) ∷ r) (new, m) = elim (Bool-cases (j == k)) [
  | inl e ↦ rw e (subst (λ x. lookup x r ≡ none) ((eq_iff j k).0 e) new, m)
  | inr n ↦
      rw n
        (lookup-insert_other k j it r (λ e. ne_of_eq-false n (sym e)) ∙ new, insert-IsMap k it r m)
]

pub In-lookup :
    (k : String) (it : Item) (r : Repository) → IsMap r → In (k, it) r → lookup k r ≡ some it
unfolding IsMap lookup
In-lookup k it [] m i = elim i [ ]
In-lookup k it (_ ∷ r) (new, m) here = rw (eq_refl k) refl
In-lookup k it ((j, w) ∷ r) (new, m) (there i) =
    let before = In-lookup k it r m i in
    elim (Bool-cases (j == k)) [ inl e ↦ let same = (eq_iff j k).0 e in cc | inr n ↦ rw n before ]

-- the item of the key is being processed
abbrev pub IsLocked : String → Repository → Type 0
IsLocked k r = (it : Item) × (lookup k r ≡ some it) × (it.status ≡ "processing")

mark-keeps :
    (items : List (String × Item)) (k : String) (r : Repository)
    → IsLocked k r
    → IsLocked k (mark_processing items r)
unfolding mark_processing
mark-keeps [] k r locked = locked
mark-keeps ((j, w) ∷ items) k r (it, found, processing) =
    mark-keeps items k _ (elim (Bool-cases (j == k)) [
      | inl e ↦
          let v : Item = record w { status = "processing" } in
          (
            v,
            subst (λ x. lookup x (insert j v r) ≡ some v) ((eq_iff j k).0 e)
                (lookup-insert_same j v r),
            refl,
          )
      | inr n ↦ (it, lookup-insert_other j k _ r (ne_of_eq-false n) ∙ found, processing)
    ])

pub mark-locks :
    (items : List (String × Item)) (k : String) (it : Item) (r : Repository)
    → In (k, it) items
    → IsLocked k (mark_processing items r)
unfolding mark_processing
mark-locks [] k it r i = elim i [ ]
mark-locks (_ ∷ items) k it r here =
    mark-keeps items k _ (record it { status = "processing" }, lookup-insert_same k _ r, refl)
mark-locks ((j, w) ∷ items) k it r (there i) = mark-locks items k it _ i

mark-IsMap :
    (items : List (String × Item)) (r : Repository) → IsMap r → IsMap (mark_processing items r)
unfolding mark_processing
mark-IsMap [] r m = m
mark-IsMap ((k, it) ∷ items) r m = mark-IsMap items _ (insert-IsMap k _ r m)

due-pending : (now : ℕ) (it : Item) → is_due now it ≡ true → it.status ≡ "pending"
unfolding is_due
due-pending now it h = ground (arith, h, eq_iff it.status "pending")

some_inj : {v w : Item} → some v ≡ some w → v ≡ w
some_inj h = cc

-- The calls of the repository.
pub data Op : Type 0 where
  inserts : InsertParams → Op
  locks : ℕ → ℕ → Op
  processes : String → ℕ → Op
  retries : String → ℕ → ℕ → String → Op
  fails : String → ℕ → String → Op

abbrev pub after : Op → Repository → Repository
after (inserts p) r = insert_event p r
after (locks size now) r = (lock_pending_batch size now r).1
after (processes id at) r = mark_processed id at r
after (retries id count next_at message) r = mark_retry id count next_at message r
after (fails id at message) r = mark_failed_permanent id at message r

unfoldable pub run : List Op → Repository → Repository
run [] r = r
run (op ∷ ops) r = run ops (after op r)

-- The call neither inserts the event again nor marks it.
abbrev pub Spares : String → Op → Type 0
Spares k (inserts p) = p.event_id ≢ k
Spares k (locks size now) = Unit
Spares k (processes id at) = id ≢ k
Spares k (retries id count next_at message) = id ≢ k
Spares k (fails id at message) = id ≢ k

abbrev Held : String → Repository → Type 0
Held k r = IsMap r × IsLocked k r

insert-Held :
    (k id : String) (w : Item) (r : Repository) → id ≢ k → Held k r → Held k (insert id w r)
insert-Held k id w r other (m, (it, found, processing)) =
    (insert-IsMap id w r m, (it, lookup-insert_other id k w r other ∙ found, processing))

on_item-Held :
    (f : Item → Item) (k id : String) (o : Option Item) (r : Repository)
    → id ≢ k
    → Held k r
    → Held k (on_item f id o r)
on_item-Held f k id none r other held = held
on_item-Held f k id (some it) r other held = insert-Held k id (f it) r other held

after-Held : (k : String) (op : Op) (r : Repository) → Spares k op → Held k r → Held k (after op r)
unfolding insert_event lock_pending_batch mark_processed mark_retry mark_failed_permanent
after-Held k (inserts p) r other held = insert-Held k p.event_id _ r other held
after-Held k (locks size now) r other (m, locked) =
    (mark-IsMap (batch size now r) r m, mark-keeps (batch size now r) k r locked)
after-Held k (processes id at) r other held = on_item-Held _ k id (lookup id r) r other held
after-Held k (retries id c n e) r other held = on_item-Held _ k id (lookup id r) r other held
after-Held k (fails id at e) r other held = on_item-Held _ k id (lookup id r) r other held

run-Held :
    (k : String) (ops : List Op) (r : Repository)
    → All (Spares k) ops
    → Held k r
    → Held k (run ops r)
unfolding run
run-Held k [] r spared held = held
run-Held k (op ∷ ops) r (one, rest) held =
    run-Held k ops (after op r) rest (after-Held k op r one held)

-- An event that one call locks is in no batch that a call locks later, whatever the times and the
-- sizes of the batches, after any calls in between that neither mark the event nor insert its id
-- again. The map of the events has no key twice.
pub lock-once :
    (size size' now now' : ℕ) (r : Repository) (k : String) (it it' : Item) (ops : List Op)
    → IsMap r
    → In (k, it) (batch size now r)
    → All (Spares k) ops
    → In (k, it') (batch size' now' (run ops (lock_pending_batch size now r).1))
    → ⊥
unfolding lock_pending_batch
lock-once size size' now now' r k it it' ops m i spared i' =
    let marked = mark_processing (batch size now r) r in
    let last = run ops marked in
    let (m', (w, found, processing)) =
      run-Held k ops marked spared
        (mark-IsMap (batch size now r) r m, mark-locks (batch size now r) k it r i) in
    let (stored, pending) = In-batch size' now' last (k, it') i' in
    let found' = In-lookup k it' last m' stored in
    let same = some_inj (sym found ∙ found') in
    ne_of_eq-false {s = "processing"} {t = "pending"} refl
      (sym processing ∙ (ap (λ x. x.status) same ∙ due-pending now' it' pending))

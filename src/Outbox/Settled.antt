-- ===== src/Outbox/Settled.antt =====
-- A tick settles every event that it locks.
use cobo_iam_services.Base.{
  ℕ, ◌+◌, ◌<◌, String, ◌≡◌, ◌≢◌, sym, ap, subst, ◌∙◌, List, [], ◌∷◌, map, inl, inr, ◌⊎◌, some, In,
  here, there,
}
use cobo_iam_services.Dict.{Dict, lookup, insert, lookup-insert_cases}
use cobo_iam_services.Outbox.{
  Item, Repository, QueuedEvent, Machine, Handler, process, process_all, tick, lock_pending_batch,
  mark_processing, batch, event_of, max_outbox_retries,
}
use cobo_iam_services.Outbox.Lock.{IsMap, In-lookup, mark-locks}
use cobo_iam_services.Outbox.Batch.{In-batch}
use cobo_iam_services.Outbox.Endings.{Settles-IsBounded, some_inj, map_event-In, all-Ends}
use cobo_iam_services.Outbox.Tick.{
  IsBounded, Settles, Outcome, Outcome-not_processing, process-Settles,
}

-- What is being processed was so in `r₀`, or is one of the events still to come.
Leaves : List QueuedEvent → Repository → Repository → Type 0
Leaves events r₀ r =
    (k : String) (it : Item)
    → lookup k r ≡ some it
    → it.status ≡ "processing"
    → (lookup k r₀ ≡ some it) ⊎ ((e : QueuedEvent) × In e events × (e.event_id ≡ k))

Settles-Leaves :
    (e : QueuedEvent) (events : List QueuedEvent) (r₀ r r' : Repository)
    → Settles e.event_id e.retry_count r r'
    → Leaves (e ∷ events) r₀ r
    → Leaves events r₀ r'
unfolding Settles Leaves
Settles-Leaves e events r₀ r r' settles leaves = λ k it h processing. elim (settles k it h) [
  | inr (at, moved, count) ↦ elim (Outcome-not_processing e.retry_count it moved processing) [ ]
  | inl (other, before) ↦ elim (leaves k it before processing) [
    | inl old ↦ inl old
    | inr (f, i, at) ↦ inr (f, later₁ e f events k other at i, at)
  ]
]
  where
    later₁ :
        (e f : QueuedEvent) (events : List QueuedEvent) (k : String)
        → k ≢ e.event_id
        → f.event_id ≡ k
        → In f (e ∷ events)
        → In f events
    later₁ e _ events k other at here = elim (other (sym at)) [ ]
    later₁ e f events k other at (there i) = i

-- The repository is a map by event id, whose events have retries left.
pub record IsStored (r : Repository) : Type 0 where
  pub is_map : IsMap r
  pub keyed : (k : String) (it : Item) → In (k, it) r → it.event.event_id ≡ k
  pub bounded : IsBounded r

pub insert-IsBounded :
    (k : String) (it : Item) (r : Repository)
    → it.event.retry_count < max_outbox_retries
    → IsBounded r
    → IsBounded (insert k it r)
unfolding IsBounded
insert-IsBounded k it r lt bounded = λ j w h. elim (lookup-insert_cases k j it w r h) [
  | inl (at, is) ↦ subst (λ x. x.event.retry_count < max_outbox_retries) is lt
  | inr old ↦ bounded j w old
]

mark-IsBounded :
    (items : List (String × Item)) (r : Repository)
    → ((x : String × Item) → In x items → x.1.event.retry_count < max_outbox_retries)
    → IsBounded r
    → IsBounded (mark_processing items r)
unfolding mark_processing
mark-IsBounded [] r each bounded = bounded
mark-IsBounded ((j, w) ∷ items) r each bounded =
    mark-IsBounded items _ (λ x i. each x (there i))
      (insert-IsBounded j (record w { status = "processing" }) r (each (j, w) here) bounded)

-- What is being processed after the marks was so before, or is one of the items marked.
mark-Leaves :
    (items : List (String × Item)) (r : Repository) (k : String) (it : Item)
    → lookup k (mark_processing items r) ≡ some it
    → (lookup k r ≡ some it) ⊎ ((x : String × Item) × In x items × (x.0 ≡ k))
unfolding mark_processing
mark-Leaves [] r k it h = inl h
mark-Leaves ((j, w) ∷ items) r k it h =
    elim (mark-Leaves items (insert j (record w { status = "processing" }) r) k it h) [
      | inr (x, i, at) ↦ inr (x, there i, at)
      | inl before ↦
          elim (lookup-insert_cases j k (record w { status = "processing" }) it r before) [
            | inl (at, is) ↦ inr ((j, w), here, at)
            | inr old ↦ inl old
          ]
    ]

In-map_event :
    (x : String × Item) (items : List (String × Item))
    → In x items
    → In (event_of x) (map event_of items)
In-map_event x [] i = elim i [ ]
In-map_event x (_ ∷ items) here = here
In-map_event x (y ∷ items) (there i) = there (In-map_event x items i)

module _ {H : Type 0} (clock : ℕ → ℕ) (draw : ℕ → ℕ → ℕ) where
  process_all-settles :
      (handlers : Dict (Handler H)) (events : List QueuedEvent) (r₀ : Repository) (m : Machine H)
      → IsBounded m.repository
      → Leaves events r₀ m.repository
      → IsBounded (process_all clock draw handlers events m).repository
        × Leaves [] r₀ (process_all clock draw handlers events m).repository
  unfolding process_all
  process_all-settles handlers [] r₀ m bounded leaves = (bounded, leaves)
  process_all-settles handlers (e ∷ events) r₀ m bounded leaves =
      let settles = process-Settles clock draw handlers e m bounded in
      process_all-settles handlers events r₀ (process clock draw handlers e m)
        (Settles-IsBounded e.event_id e.retry_count m.repository _ settles bounded)
        (Settles-Leaves e events r₀ m.repository _ settles leaves)

-- A tick settles each event that it locks: afterwards the event is processed, or waits with one more
-- try counted, or, where that would be the tenth, has failed for good. An event is being processed
-- only if it was before the tick, and is then unchanged. No event has used up its ten retries. This
-- holds for all handlers, clocks and sources of randomness, of a repository that is a map by event id
-- whose events have retries left.
pub tick-settles :
    {H : Type 0} (clock : ℕ → ℕ) (draw : ℕ → ℕ → ℕ) (size : ℕ) (handlers : Dict (Handler H))
    (m : Machine H)
    → IsStored m.repository
    → IsBounded (tick clock draw size handlers m).repository
      × ((k : String) (it : Item)
          → lookup k (tick clock draw size handlers m).repository ≡ some it
          → it.status ≡ "processing"
          → lookup k m.repository ≡ some it)
      × ((k : String) (old : Item)
          → In (k, old) (batch size (clock m.readings) m.repository)
          → (it : Item) × (lookup k (tick clock draw size handlers m).repository ≡ some it)
            × Outcome old.event.retry_count it)
unfolding tick lock_pending_batch Leaves IsBounded
tick-settles clock draw size handlers m stored =
    let now = clock m.readings in
    let r = m.repository in
    let from = In-batch size now r in
    let marked = mark_processing (batch size now r) r in
    let start = record m { repository = marked; readings = m.readings + 1 } in
    let bounded =
      mark-IsBounded (batch size now r) r
        (λ x i. stored.bounded x.0 x.1 (In-lookup x.0 x.1 r stored.is_map (from x i).0))
        stored.bounded in
    let leaves : Leaves (map event_of (batch size now r)) r marked = λ k it h processing.
      elim (mark-Leaves (batch size now r) r k it h) [
        | inl old ↦ inl old
        | inr (x, i, at) ↦ inr (
          event_of x,
          In-map_event x (batch size now r) i,
          stored.keyed x.0 x.1 (from x i).0 ∙ at,
        )
      ] in
    let (bounded', leaves') =
      process_all-settles clock draw handlers (map event_of (batch size now r)) r start bounded
        leaves in
    (
      bounded',
      λ k it h processing. elim (leaves' k it h processing) [
        | inl old ↦ old
        | inr (e, i, at) ↦ elim i [ ]
      ],
      λ k old i.
          let (stored_old, due_old) = from (k, old) i in
          let (there_now, present, processing) = mark-locks (batch size now r) k old r i in
          all-Ends clock draw handlers (map event_of (batch size now r)) start k
            old.event.retry_count bounded
            (λ f j at.
              let (x, at_x, is) = map_event-In f (batch size now r) j in
              let (stored_x, due_x) = from x at_x in
              let key : x.0 ≡ k =
                sym (stored.keyed x.0 x.1 stored_x)
                ∙ (ap (λ (e : QueuedEvent). e.event_id) is ∙ at) in
              let same : x.1 ≡ old = some_inj (
                sym (In-lookup x.0 x.1 r stored.is_map stored_x)
                ∙ (ap (λ l. lookup l r) key ∙ In-lookup k old r stored.is_map stored_old)) in
              ap (λ (e : QueuedEvent). e.retry_count) (sym is)
              ∙ ap (λ (w : Item). w.event.retry_count) same)
            (there_now, present)
            (inl (
              old.event,
              In-map_event (k, old) (batch size now r) i,
              stored.keyed k old stored_old,
            )),
    )

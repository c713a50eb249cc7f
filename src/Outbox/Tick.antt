-- ===== src/Outbox/Tick.antt =====
-- What a tick of the processor leaves behind.
use cobo_iam_services.Base.{
  Option, arith, leb, ℕ, ◌+◌, ◌≤◌, refl, ◌<◌, String, ◌≡◌, ◌≢◌, sym, subst, ◌∙◌, ap, ◌==◌, eq_iff,
  ne_of_eq-false, inl, inr, ◌⊎◌, Bool-cases, Option-cases, some, none,
}
use cobo_iam_services.Dict.{Dict, lookup, insert, lookup-insert_same, lookup-insert_other}
use cobo_iam_services.Outbox.{
  Item, Repository, QueuedEvent, Machine, Handler, on_item, max_outbox_retries, mark_processed,
  mark_retry, mark_failed_permanent, process, settle, retried, processed,
}

-- No stored event has used up its retries.
unfoldable pub IsBounded : Repository → Type 0
IsBounded r =
    (k : String) (it : Item) → lookup k r ≡ some it → it.event.retry_count < max_outbox_retries

-- What becomes of an event that was tried `count` times before: it is processed, or waits for another
-- try that is counted, or has failed for good since the try was the last.
pub data Outcome (count : ℕ) (it : Item) : Type 0 where
  delivered : it.status ≡ "processed" → Outcome count it
  waits :
      it.status ≡ "pending"
      → it.event.retry_count ≡ count + 1
      → count + 1 < max_outbox_retries
      → Outcome count it
  given_up : it.status ≡ "failed_permanent" → max_outbox_retries ≤ count + 1 → Outcome count it

pub Outcome-not_processing : (count : ℕ) (it : Item) → Outcome count it → it.status ≢ "processing"
Outcome-not_processing count it (delivered is) e =
    ne_of_eq-false {s = "processed"} {t = "processing"} refl (sym is ∙ e)
Outcome-not_processing count it (waits is more lt) e =
    ne_of_eq-false {s = "pending"} {t = "processing"} refl (sym is ∙ e)
Outcome-not_processing count it (given_up is last) e =
    ne_of_eq-false {s = "failed_permanent"} {t = "processing"} refl (sym is ∙ e)

-- `r'` is `r` but for the item of the event `id`, which has an outcome.
unfoldable pub Settles : String → ℕ → Repository → Repository → Type 0
Settles id tries r r' =
    (k : String) (it : Item)
    → lookup k r' ≡ some it
    → ((k ≢ id) × (lookup k r ≡ some it))
      ⊎ ((k ≡ id) × Outcome tries it × (it.event.retry_count < max_outbox_retries))

some_inj : {v w : Item} → some v ≡ some w → v ≡ w
some_inj h = cc

none-some : {v : Item} → none ≡ some v → ⊥
none-some h = cc

pub on_item-Settles :
    (f : Item → Item) (id : String) (tries : ℕ) (r : Repository)
    → IsBounded r
    → ((it : Item) → Outcome tries (f it))
    → ((it : Item)
        → it.event.retry_count < max_outbox_retries
        → (f it).event.retry_count < max_outbox_retries)
    → Settles id tries r (on_item f id (lookup id r) r)
unfolding Settles IsBounded
on_item-Settles f id tries r bounded moved count = λ k it h. elim (Bool-cases (k == id)) [
  | inr n ↦ elim (Option-cases (lookup id r)) [
    | inl missing ↦ inl (ne_of_eq-false n, rw missing at h)
    | inr (old, found) ↦ inl (
      ne_of_eq-false n,
      sym (lookup-insert_other id k (f old) r (λ e. ne_of_eq-false n (sym e))) ∙ (rw found at h),
    )
  ]
  | inl e ↦
      let at = (eq_iff k id).0 e in
      elim (Option-cases (lookup id r)) [
        | inl missing ↦
            let h' : lookup k r ≡ some it = rw missing at h in
            elim (none-some (sym missing ∙ (ap (λ x. lookup x r) (sym at) ∙ h'))) [ ]
        | inr (old, found) ↦
            let h' : lookup k (insert id (f old) r) ≡ some it = rw found at h in
            let same : f old ≡ it = some_inj (
              sym (lookup-insert_same id (f old) r)
              ∙ (ap (λ x. lookup x (insert id (f old) r)) (sym at) ∙ h')) in
            inr (
              at,
              subst (λ x. Outcome tries x) same (moved old),
              subst (λ x. x.event.retry_count < max_outbox_retries) same
                  (count old (bounded id old found)),
            )
      ]
]

-- The event is stored.
abbrev pub Present : String → Repository → Type 0
Present k r = (it : Item) × (lookup k r ≡ some it)

on_item-Present :
    (f : Item → Item) (k id : String) (o : Option Item) (r : Repository)
    → Present k r
    → Present k (on_item f id o r)
on_item-Present f k id none r present = present
on_item-Present f k id (some w) r (it, found) = elim (Bool-cases (id == k)) [
  | inl e ↦ (
    f w,
    subst (λ x. lookup x (insert id (f w) r) ≡ some (f w)) ((eq_iff id k).0 e)
        (lookup-insert_same id (f w) r),
  )
  | inr n ↦ (it, lookup-insert_other id k (f w) r (ne_of_eq-false n) ∙ found)
]

module _ {H : Type 0} (clock : ℕ → ℕ) (draw : ℕ → ℕ → ℕ) where
  processed-Settles :
      (e : QueuedEvent) (m : Machine H)
      → IsBounded m.repository
      → Settles e.event_id e.retry_count m.repository (processed clock draw e m).repository
  unfolding mark_processed
  processed-Settles e m bounded =
      on_item-Settles _ e.event_id e.retry_count m.repository bounded (λ it. delivered refl)
        (λ it lt. lt)

  retried-Settles :
      (e : QueuedEvent) (message : String) (m : Machine H)
      → IsBounded m.repository
      → Settles e.event_id e.retry_count m.repository (retried clock draw e message m).repository
  unfolding mark_retry mark_failed_permanent
  retried-Settles e message m bounded =
      elim (Bool-cases (leb max_outbox_retries (e.retry_count + 1))) [
        | inl y ↦ rw y (
            on_item-Settles _ e.event_id e.retry_count m.repository bounded
              (λ it. given_up refl (ground (arith, y))) (λ it lt. lt))
        | inr n ↦ rw n (
            on_item-Settles _ e.event_id e.retry_count m.repository bounded
              (λ it. waits refl refl (ground (arith, n))) (λ it lt. ground (arith, n)))
      ]

  settle-Settles :
      (e : QueuedEvent) (outcome : Option String) (m : Machine H)
      → IsBounded m.repository
      → Settles e.event_id e.retry_count m.repository (settle clock draw e outcome m).repository
  settle-Settles e none m = processed-Settles e m
  settle-Settles e (some message) m = retried-Settles e message m

  pub process-Settles :
      (handlers : Dict (Handler H)) (e : QueuedEvent) (m : Machine H)
      → IsBounded m.repository
      → Settles e.event_id e.retry_count m.repository (process clock draw handlers e m).repository
  unfolding process
  process-Settles handlers e m bounded = elim (Option-cases (lookup e.event_type handlers)) [
    | inl missing ↦ rw missing (processed-Settles e m bounded)
    | inr (h, found) ↦ rw found (
        settle-Settles e (h e m.handler_state).0
          (record m { handler_state = (h e m.handler_state).1 }) bounded)
  ]

  settle-Present :
      (e : QueuedEvent) (outcome : Option String) (m : Machine H) (k : String)
      → Present k m.repository
      → Present k (settle clock draw e outcome m).repository
  unfolding mark_processed mark_retry mark_failed_permanent
  settle-Present e none m k present =
      on_item-Present _ k e.event_id (lookup e.event_id m.repository) m.repository present
  settle-Present e (some message) m k present =
      let kept : (f : Item → Item)
          → Present k (on_item f e.event_id (lookup e.event_id m.repository) m.repository) =
        λ f. on_item-Present f k e.event_id (lookup e.event_id m.repository) m.repository present in
      elim (Bool-cases (leb max_outbox_retries (e.retry_count + 1))) [
        | inl y ↦ rw y (kept _)
        | inr n ↦ rw n (kept _)
      ]

  pub process-Present :
      (handlers : Dict (Handler H)) (e : QueuedEvent) (m : Machine H) (k : String)
      → Present k m.repository
      → Present k (process clock draw handlers e m).repository
  unfolding process
  process-Present handlers e m k present = elim (Option-cases (lookup e.event_type handlers)) [
    | inl missing ↦ rw missing (settle-Present e none m k present)
    | inr (h, found) ↦ rw found (
        settle-Present e (h e m.handler_state).0
          (record m { handler_state = (h e m.handler_state).1 }) k present)
  ]

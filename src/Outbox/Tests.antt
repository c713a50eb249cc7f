-- ===== src/Outbox/Tests.antt =====
-- Three events, a batch of two of them, and a tick with a handler that fails.
use cobo_iam_services.Base.{
  List, All, ◌++◌, ◌↔◌, ne_of_eq-false, ℕ, String, ◌≡◌, ◌+◌, ◌*◌, ◌/◌, ◌≤◌, refl, none, some, [],
  ◌∷◌, arith, length, In, here, there, map,
}
use Prim.Native.Nat.{min}
use cobo_iam_services.Dict.{Dict, lookup, insert}
use cobo_iam_services.Outbox.{
  InsertParams, Item, Repository, insert_event, batch, lock_pending_batch, due, is_due, second,
  backoff, backoff_with_jitter, Machine, Handler, register, tick,
}
use cobo_iam_services.Outbox.Backoff.{backoff_with_jitter_bounds}
use cobo_iam_services.Outbox.Ready.{batch-IsOrdered, IsOrdered, Waits}
use cobo_iam_services.Outbox.Lock.{
  lock-once, IsMap, Op, inserts, locks, processes, retries, fails, Spares, run,
}
use cobo_iam_services.Outbox.Tick.{IsBounded, Outcome}
use cobo_iam_services.Outbox.Settled.{tick-settles, insert-IsBounded}

abbrev event : String → ℕ → InsertParams
event id at = record {
  event_id = id;
  aggregate_type = "user";
  aggregate_id = "u_1";
  event_type = "email";
  payload_json = "{}";
  available_at = at;
}

abbrev stored : String → ℕ → Item
stored id at = record {
  event = cobo_iam_services.Outbox.queued (event id at);
  status = "pending";
  last_error = "";
  processed_at = none;
}

abbrev three : Repository
three = ("e1", stored "e1" 4) ∷ ("e2", stored "e2" 1) ∷ ("e3", stored "e3" 9) ∷ []

inserted :
    insert_event (event "e3" 9) (insert_event (event "e2" 1) (insert_event (event "e1" 4) []))
    ≡ three
unfolding insert_event insert
inserted = refl

three-IsMap : IsMap three
unfolding IsMap lookup
three-IsMap = (refl, (refl, (refl, tt)))

batch-IsOrdered_example :
    (rest : List (String × Item)) × (length (batch 1 5 three)
      ≡ min 1 (length (batch 1 5 three ++ rest)))
    × IsOrdered (batch 1 5 three ++ rest)
    × IsMap (batch 1 5 three ++ rest)
    × ((x : String × Item) → In x (batch 1 5 three ++ rest) ↔ (In x three × Waits 5 x.1))
batch-IsOrdered_example = batch-IsOrdered 1 5 three three-IsMap

batch_order : map (λ x. x.0) (batch 2 5 three) ≡ "e2" ∷ "e1" ∷ []
unfolding cobo_iam_services.Outbox.sort due insert_event cobo_iam_services.Dict.insert is_due
    cobo_iam_services.Outbox.before
batch_order = refl

locked : In ("e2", stored "e2" 1) (batch 2 5 three)
unfolding cobo_iam_services.Outbox.sort due insert_event cobo_iam_services.Dict.insert is_due
    cobo_iam_services.Outbox.before
locked = here

abbrev between : List Op
between =
    inserts (event "e4" 2)
    ∷ locks 1 6
    ∷ processes "e1" 7
    ∷ retries "e4" 1 8 "late"
    ∷ fails "e3" 9 "no"
    ∷ []

between-Spares : All (Spares "e2") between
between-Spares = (
  ne_of_eq-false {s = "e4"} {t = "e2"} refl,
  (
    tt,
    (
      ne_of_eq-false {s = "e1"} {t = "e2"} refl,
      (ne_of_eq-false {s = "e4"} {t = "e2"} refl, (ne_of_eq-false {s = "e3"} {t = "e2"} refl, tt)),
    ),
  ),
)

lock-once_example :
    In ("e2", stored "e2" 1) (batch 3 8 (run between (lock_pending_batch 2 5 three).1)) → ⊥
lock-once_example =
    lock-once 2 3 5 8 three "e2" (stored "e2" 1) (stored "e2" 1) between three-IsMap locked
      between-Spares

backoff_with_jitter_bounds_example :
    (backoff 3 ≤ backoff_with_jitter (λ n. 0) 3)
    × (backoff_with_jitter (λ n. 0) 3 ≤ backoff 3 + backoff 3 / 4)
    × (second ≤ backoff_with_jitter (λ n. 0) 3)
    × (backoff_with_jitter (λ n. 0) 3 ≤ 40 * second)
backoff_with_jitter_bounds_example = backoff_with_jitter_bounds (λ n. 0) 3 (λ m lt. lt)

abbrev failing : Dict (Handler ℕ)
failing = ("email", λ e s. (some "mailbox full", s + 1)) ∷ []

registered :
    register "email" (some (λ e s. (some "mailbox full", s + 1))) (register "" none []) ≡ failing
unfolding register insert
registered = refl

abbrev machine : Machine ℕ
machine = record { repository = three; handler_state = 0; readings = 5 }

empty-IsBounded : IsBounded []
unfolding IsBounded lookup
empty-IsBounded = λ k it h. cc

three-IsBounded : IsBounded three
unfolding insert
three-IsBounded = insert-IsBounded "e3" (stored "e3" 9) _ (omega arith) (
    insert-IsBounded "e2" (stored "e2" 1) _ (omega arith)
      (insert-IsBounded "e1" (stored "e1" 4) [] (omega arith) empty-IsBounded))

three-keyed : (k : String) (it : Item) → In (k, it) three → it.event.event_id ≡ k
three-keyed _ _ here = refl
three-keyed _ _ (there here) = refl
three-keyed _ _ (there (there here)) = refl
three-keyed _ _ (there (there (there i))) = elim i [ ]

tick-settles_example :
    IsBounded (tick (λ n. n) (λ i n. 0) 2 failing machine).repository
    × ((k : String) (it : Item)
        → lookup k (tick (λ n. n) (λ i n. 0) 2 failing machine).repository ≡ some it
        → it.status ≡ "processing"
        → lookup k three ≡ some it)
    × ((k : String) (old : Item)
        → In (k, old) (batch 2 5 three)
        → (it : Item) × (lookup k (tick (λ n. n) (λ i n. 0) 2 failing machine).repository ≡ some it)
          × Outcome old.event.retry_count it)
tick-settles_example =
    tick-settles (λ n. n) (λ i n. 0) 2 failing machine
      (record { is_map = three-IsMap; keyed = three-keyed; bounded = three-IsBounded })

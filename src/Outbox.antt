-- ===== src/Outbox.antt =====
-- internal/platform/outbox: contracts.go, the in-memory repository and the processor. Times are
-- nanoseconds, and a payload is the text of its JSON.
pub mod Publisher
pub mod Backoff
pub mod Batch
pub mod Lock
pub mod Distinct
pub mod Ready
pub mod Endings
pub mod Tick
pub mod Settled
mod Tests
use cobo_iam_services.Base.{
  ℕ, ◌+◌, String, Bool, true, false, not, ◌&&◌, ◌||◌, Option, none, some, List, [], ◌∷◌, map, ◌==◌,
  eqb, ltb, leb, take, ◌*◌, ◌/◌, ◌^◌, ◌-◌, if◌then◌else◌,
}
use Prim.Native.String.{compare}
use Prim.Native.Nat.{Ordering}
use cobo_iam_services.Dict.{Dict, lookup, insert}

pub record QueuedEvent : Type 0 where
  pub event_id : String
  pub aggregate_type : String
  pub aggregate_id : String
  pub event_type : String
  pub payload_json : String
  pub retry_count : ℕ
  pub available_at : ℕ

pub record InsertParams : Type 0 where
  pub event_id : String
  pub aggregate_type : String
  pub aggregate_id : String
  pub event_type : String
  pub payload_json : String
  pub available_at : ℕ

pub record Item : Type 0 where
  pub event : QueuedEvent
  pub status : String
  pub last_error : String
  pub processed_at : Option ℕ

-- `map[string]*item`; no two keys share an item, so the map holds the items themselves.
abbrev pub Repository : Type 0
Repository = Dict Item

-- inmemory/repository.go
abbrev pub queued : InsertParams → QueuedEvent
queued p = record {
  event_id = p.event_id;
  aggregate_type = p.aggregate_type;
  aggregate_id = p.aggregate_id;
  event_type = p.event_type;
  payload_json = p.payload_json;
  retry_count = 0;
  available_at = p.available_at;
}

unfoldable pub insert_event : InsertParams → Repository → Repository
insert_event p r =
    insert p.event_id
      (record { event = queued p; status = "pending"; last_error = ""; processed_at = none }) r

-- waiting, and due at `now`
unfoldable pub is_due : ℕ → Item → Bool
is_due now it = it.status == "pending" && leb it.event.available_at now

abbrev add_due : Bool → String × Item → List (String × Item) → List (String × Item)
add_due true it items = it ∷ items
add_due false it items = items

unfoldable pub due : ℕ → Repository → List (String × Item)
due now [] = []
due now ((k, it) ∷ r) = add_due (is_due now it) (k, it) (due now r)

abbrev is_less : Ordering → Bool
is_less Ordering.lt = true
is_less _ = false

-- the order of the batch: by the time that the event is due, and then by its id
unfoldable pub before : Item → Item → Bool
before a b =
    if eqb a.event.available_at b.event.available_at
    then is_less (compare a.event.event_id b.event.event_id)
    else ltb a.event.available_at b.event.available_at

abbrev pub place :
    Bool
    → String × Item
    → String × Item
    → List (String × Item)
    → List (String × Item)
    → List (String × Item)
place true x y ys rest = x ∷ (y ∷ ys)
place false x y ys rest = y ∷ rest

unfoldable pub insert_sorted : String × Item → List (String × Item) → List (String × Item)
insert_sorted x [] = x ∷ []
insert_sorted x (y ∷ ys) = place (before x.1 y.1) x y ys (insert_sorted x ys)

-- `sort.Slice`
unfoldable pub sort : List (String × Item) → List (String × Item)
unfolding insert_sorted
sort [] = []
sort (x ∷ xs) = insert_sorted x (sort xs)

unfoldable pub mark_processing : List (String × Item) → Repository → Repository
mark_processing [] r = r
mark_processing ((k, it) ∷ items) r =
    mark_processing items (insert k (record it { status = "processing" }) r)

abbrev pub batch : ℕ → ℕ → Repository → List (String × Item)
batch size now r = take size (sort (due now r))

abbrev event_of : String × Item → QueuedEvent
event_of x = x.1.event

unfoldable pub lock_pending_batch : ℕ → ℕ → Repository → List QueuedEvent × Repository
unfolding mark_processing sort due
lock_pending_batch size now r =
    (map event_of (batch size now r), mark_processing (batch size now r) r)

-- a write to the item of an event, if it is there
abbrev on_item : (Item → Item) → String → Option Item → Repository → Repository
on_item f id none r = r
on_item f id (some it) r = insert id (f it) r

unfoldable pub mark_processed : String → ℕ → Repository → Repository
mark_processed id at r =
    on_item (λ it. record it { status = "processed"; processed_at = some at }) id (lookup id r) r

unfoldable pub mark_retry : String → ℕ → ℕ → String → Repository → Repository
mark_retry id retry_count next_at last_error r =
    on_item
      (λ it. record it {
        status = "pending";
        event = record (it.event) { retry_count = retry_count; available_at = next_at };
        last_error = last_error;
      })
      id (lookup id r) r

unfoldable pub mark_failed_permanent : String → ℕ → String → Repository → Repository
mark_failed_permanent id at last_error r =
    on_item
      (λ it. record it {
        status = "failed_permanent";
        last_error = last_error;
        processed_at = some at;
      })
      id (lookup id r) r

-- processor.go
abbrev pub second : ℕ
second = 1000000000

unfoldable pub clamped : ℕ → ℕ
clamped retry = if ltb retry 1 then 1 else if ltb 6 retry then 6 else retry

unfoldable pub backoff : ℕ → ℕ
backoff retry = 2 ^ (clamped retry - 1) * second

-- `draw n` is `rand.Int64N(n)`.
unfoldable pub backoff_with_jitter : (ℕ → ℕ) → ℕ → ℕ
unfolding backoff
backoff_with_jitter draw retry =
    let base = backoff retry in
    if eqb base 0 then second else base + draw ((if ltb 1 (base / 4) then base / 4 else 1) + 1)

abbrev pub max_outbox_retries : ℕ
max_outbox_retries = 10

-- `NewProcessor` puts 50 for a size that is not positive.
abbrev pub batch_size_of : ℕ → ℕ
batch_size_of n = if eqb n 0 then 50 else n

-- `readings` counts the readings of the clock and of the source of randomness.
pub record Machine (H : Type 0) : Type 0 where
  pub repository : Repository
  pub handler_state : H
  pub readings : ℕ

abbrev pub Handler : Type 0 → Type 0
Handler H = QueuedEvent → H → Option String × H

-- `Register` leaves out a handler that is nil, and an empty type.
unfoldable pub register :
    {H : Type 0} → String → Option (Handler H) → Dict (Handler H) → Dict (Handler H)
register event_type none handlers = handlers
register event_type (some h) handlers =
    if event_type == "" then handlers else insert event_type h handlers

-- A handler has a state of its own, and fails with a text. The clock and the source of randomness
-- are read at each step: `clock n` and `draw n` are what the `n`-th reading returns.
module _ {H : Type 0} (clock : ℕ → ℕ) (draw : ℕ → ℕ → ℕ) where
  abbrev retried : QueuedEvent → String → Machine H → Machine H
  retried e message m =
      let count = e.retry_count + 1 in
      let now = clock m.readings in
      record m {
        readings = m.readings + 1;
        repository =
            if leb max_outbox_retries count
            then mark_failed_permanent e.event_id now message m.repository
            else mark_retry e.event_id count (now + backoff_with_jitter (draw m.readings) count)
                message m.repository;
      }

  abbrev processed : QueuedEvent → Machine H → Machine H
  processed e m = record m {
    readings = m.readings + 1;
    repository = mark_processed e.event_id (clock m.readings) m.repository;
  }

  abbrev settle : QueuedEvent → Option String → Machine H → Machine H
  settle e none m = processed e m
  settle e (some message) m = retried e message m

  abbrev dispatch : QueuedEvent → Option (Handler H) → Machine H → Machine H
  dispatch e none m = processed e m
  dispatch e (some h) m =
      let (outcome, s) = h e m.handler_state in settle e outcome (record m { handler_state = s })

  unfoldable pub process : Dict (Handler H) → QueuedEvent → Machine H → Machine H
  process handlers e m = dispatch e (lookup e.event_type handlers) m

  unfoldable pub process_all : Dict (Handler H) → List QueuedEvent → Machine H → Machine H
  unfolding process
  process_all handlers [] m = m
  process_all handlers (e ∷ events) m = process_all handlers events (process handlers e m)

  unfoldable pub tick : ℕ → Dict (Handler H) → Machine H → Machine H
  unfolding lock_pending_batch process_all
  tick size handlers m =
      let (events, r) = lock_pending_batch size (clock m.readings) m.repository in
      process_all handlers events (record m { repository = r; readings = m.readings + 1 })

-- ===== src/Outbox/Publisher.antt =====
-- platform/outbox/publisher.go: an event is queued with its payload in JSON; `marshal` is
-- json.Marshal.
use cobo_iam_services.Base.{String}
use cobo_iam_services.Base.Results.{Result, ok, Exec, lift, wrapping, ◌>>=◌}
use cobo_iam_services.Dict.{Dict}
use cobo_iam_services.Iam.Recovery.{Event}
use cobo_iam_services.Outbox.{InsertParams, Repository, insert_event}

module _ (marshal : Dict String → Result String) where
  abbrev insert_params : Event → String → InsertParams
  insert_params event payload = record {
    event_id = event.event_id;
    aggregate_type = event.aggregate_type;
    aggregate_id = event.aggregate_id;
    event_type = event.event_type;
    payload_json = payload;
    available_at = event.occurred_at;
  }

  unfoldable pub publish : Event → Exec Repository (Unit {0})
  publish event = do
    payload ← wrapping "marshal event payload" (lift (marshal event.payload))
    λ queue. (ok tt, insert_event (insert_params event payload) queue)

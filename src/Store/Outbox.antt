-- ===== src/Store/Outbox.antt =====
-- internal/store/store.go: outbox events.
use go_order_service.Prelude.{String, List}
use go_order_service.Prelude.Int.{ℤ}
use go_order_service.Encoding.{Json}
use go_order_service.Schema.{AggregateType, EventType, OutboxEvent}
use go_order_service.Runtime.{Env, Action, ◌>>=◌, query, scan_uuid}
use go_order_service.Sqlc.Outbox
use go_order_service.Store.Orders.{text_or_null}

pub record CreateOutboxEventParams : Type 0 where
  pub id : String
  pub aggregate_type : AggregateType
  pub aggregate_id : String
  pub partition_key : String
  pub event_type : EventType
  pub payload : Json

module _ (env : Env) where
  unfoldable pub create_outbox_event : CreateOutboxEventParams → Action OutboxEvent
  create_outbox_event p = do
    id ← scan_uuid env p.id
    aggregate_id ← scan_uuid env p.aggregate_id
    partition_key ← scan_uuid env p.partition_key
    query env (
        Outbox.create_outbox_event (record {
          id = id;
          aggregate_type = p.aggregate_type;
          aggregate_id = aggregate_id;
          partition_key = partition_key;
          event_type = p.event_type;
          payload = p.payload;
        }))

  unfoldable pub claim_outbox_events : ℤ → Action (List OutboxEvent)
  claim_outbox_events limit = query env (Outbox.claim_outbox_events limit)

  unfoldable pub mark_outbox_event_published : String → Action OutboxEvent
  mark_outbox_event_published id = do
    event_id ← scan_uuid env id
    query env (Outbox.mark_outbox_event_published event_id)

  unfoldable pub mark_outbox_event_failed : String → String → Action OutboxEvent
  mark_outbox_event_failed id last_error = do
    event_id ← scan_uuid env id
    query env (Outbox.mark_outbox_event_failed event_id (text_or_null last_error))

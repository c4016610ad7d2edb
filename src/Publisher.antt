-- ===== src/Publisher.antt =====
-- internal/publisher/outbox_publisher.go: `OutboxPublisher.PublishBatch`, and the delivery of a
-- message by `Producer.Publish` of internal/kafka/producer.go. An error of the producer is its text.
pub mod Stories
pub mod Backing
pub mod Order
pub mod Progress
pub mod Loop
pub mod Producer
use go_order_service.Prelude.{
  String, Option, none, some, List, [], ◌∷◌, if◌then◌else◌, ◌==◌, string_eq,
}
use go_order_service.Prelude.Int.{ℤ}
use go_order_service.Encoding.{Json, encoded}
use go_order_service.Schema.{OutboxEvent, aggregate_type_text, event_type_text}
use go_order_service.Runtime.{
  ok, Env, World, tick, Action, pure, ◌>>=◌, ◌>>◌, count_metric, outbox_events_published,
  outbox_events_failed, with_tx, DeliveryOutcome, delivered, undelivered, unconfirmed, Published,
}
use go_order_service.Store.Outbox as OutboxStore
use go_order_service.Messages.{OutboxMessage, marshal_message}

-- `Config`; the interval between two batches is no part of a batch.
pub record Config : Type 0 where
  pub topic : String
  pub batch_size : ℤ

abbrev pub produce : Published → DeliveryOutcome → Action (Option String)
produce m delivered w = (ok none, record (tick w) { published = m ∷ w.published })
produce m (undelivered text) w = (ok (some text), tick w)
produce m (unconfirmed text) w = (ok (some text), record (tick w) { published = m ∷ w.published })

module _ (env : Env) where
  -- `Produce` and the delivery report.
  abbrev pub hand_over : Published → Action (Option String)
  hand_over m w = produce m (env.delivery w.ticks) w

  -- `Producer.Publish`: `none`, or the text of its error.
  unfoldable pub publish : String → String → Json → Action (Option String)
  publish topic key payload =
      if topic == ""
      then pure (some "kafka topic must not be empty")
      else if key == ""
      then pure (some "kafka message key must not be empty")
      else hand_over (record { topic = topic; key = key; value = payload })

  -- The message of a row.
  abbrev pub message_of : OutboxEvent → OutboxMessage
  message_of e = record {
    id = env.render e.id;
    aggregate_type = aggregate_type_text e.aggregate_type;
    aggregate_id = env.render e.aggregate_id;
    event_type = event_type_text e.event_type;
    payload = encoded e.payload;
  }

  -- After the producer's answer.
  abbrev pub mark_event : OutboxEvent → Option String → Action Unit
  mark_event e none = do
    OutboxStore.mark_outbox_event_published env (env.render e.id)
    count_metric (outbox_events_published e.event_type)
  mark_event e (some text) = do
    OutboxStore.mark_outbox_event_failed env (env.render e.id) text
    count_metric (outbox_events_failed e.event_type)

  module _ (config : Config) where
    unfoldable pub publish_event : OutboxEvent → Action Unit
    publish_event e = do
      failure ← publish config.topic (env.render e.partition_key) (marshal_message (message_of e))
      mark_event e failure

    unfoldable pub publish_events : List OutboxEvent → Action Unit
    publish_events [] = pure tt
    publish_events (e ∷ es) = publish_event e >> publish_events es

    unfoldable pub publish_body : Action Unit
    publish_body = do
      events ← OutboxStore.claim_outbox_events env config.batch_size
      publish_events events

    unfoldable pub publish_batch : Action Unit
    publish_batch = with_tx env publish_body

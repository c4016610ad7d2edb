-- ===== src/Consumer.antt =====
-- internal/consumer/event_consumer.go: `EventHandler.Handle`, and the handler of Kafka records in
-- cmd/consumer/main.go. Where a record comes from goes to logs and to the texts of errors only.
pub mod Deliveries
pub mod Inbox
pub mod Errors
pub mod Loop
pub mod Progress
use go_order_service.Prelude.{
  String, Bool, true, false, Option, none, some, if◌then◌else◌, ◌==◌, string_eq,
}
use go_order_service.Encoding.{Bytes}
use go_order_service.Runtime.{
  Error, no_rows, invalid_message, Result, ok, err, Env, Action, pure, raise, ◌>>=◌, ◌>>◌, attempt,
  count_metric, consumer_events_processed, consumer_events_duplicate, new_uuid, with_tx,
}
use go_order_service.Store.Consumption as ConsumptionStore
use go_order_service.Messages.{OutboxMessage, unmarshal_message, unmarshal_user_id}

-- `ConsumerNameNotification`, `NotificationChannelEmail`, `NotificationStatusSent`.
abbrev pub consumer_name : String
consumer_name = "notification-consumer"

abbrev pub channel_email : String
channel_email = "email"

abbrev pub status_sent : String
status_sent = "sent"

-- What a valid message asks for.
pub record Notice : Type 0 where
  pub event_id : String
  pub event_type : String
  pub recipient : String

module _ (env : Env) where
  -- `uuid.Parse` without an error.
  abbrev pub is_uuid : String → Bool
  is_uuid text = elim (env.parse text) [ none ↦ false | some _ ↦ true ]

  -- The tests on the payload.
  abbrev pub address : OutboxMessage → Option String → Option Notice
  address m none = none
  address m (some user_id) =
      if user_id == ""
      then none
      else if is_uuid user_id
      then some (record { event_id = m.id; event_type = m.event_type; recipient = user_id })
      else none

  -- The tests on the envelope.
  abbrev pub check : Option OutboxMessage → Option Notice
  check none = none
  check (some m) =
      if m.id == ""
      then none
      else if is_uuid m.id
      then (if m.event_type == "" then none else address m (unmarshal_user_id m.payload))
      else none

  -- The validation of a message: `none` where `Handle` returns `ErrInvalidMessage`.
  unfoldable pub validate : Bytes → Option Notice
  validate payload = check (unmarshal_message payload)

  -- The transaction after the insert into `processed_events`: whether the event is a duplicate.
  abbrev pub deliver : {A : Type 0} → Notice → Result A → Action Bool
  deliver n (ok _) = do
    delivery_id ← new_uuid env
    ConsumptionStore.create_notification_delivery env (record {
      id = delivery_id;
      event_id = n.event_id;
      channel = channel_email;
      recipient = n.recipient;
      status = status_sent;
    })
    pure false
  deliver n (err no_rows) = pure true
  deliver n (err e) = raise e

  unfoldable pub process_body : Notice → Action Bool
  process_body n = do
    inserted ← attempt (ConsumptionStore.try_create_processed_event env n.event_id consumer_name)
    deliver n inserted

  abbrev pub count_event : Notice → Bool → Action Unit
  count_event n true = count_metric (consumer_events_duplicate n.event_type)
  count_event n false = count_metric (consumer_events_processed n.event_type)

  unfoldable pub process : Notice → Action Unit
  process n = do duplicate ← with_tx env (process_body n); count_event n duplicate

  abbrev pub answer : Option Notice → Action Unit
  answer none = raise invalid_message
  answer (some n) = process n

  unfoldable pub handle : Bytes → Action Unit
  handle payload = answer (validate payload)

  -- `errors.Is(err, ErrInvalidMessage)`
  abbrev pub discard : Result Unit → Action Unit
  discard (ok u) = pure u
  discard (err invalid_message) = pure tt
  discard (err e) = raise e

  -- `handleRecord`
  unfoldable pub handle_record : Bytes → Action Unit
  handle_record value = do result ← attempt (handle value); discard result

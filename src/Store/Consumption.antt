-- ===== src/Store/Consumption.antt =====
-- internal/store/store.go: processed events and notification deliveries.
use go_order_service.Prelude.{String}
use go_order_service.Schema.{ProcessedEvent, NotificationDelivery}
use go_order_service.Runtime.{Env, Action, ◌>>=◌, query, scan_uuid}
use go_order_service.Sqlc.Consumption

pub record CreateNotificationDeliveryParams : Type 0 where
  pub id : String
  pub event_id : String
  pub channel : String
  pub recipient : String
  pub status : String

module _ (env : Env) where
  unfoldable pub try_create_processed_event : String → String → Action ProcessedEvent
  try_create_processed_event event_id consumer_name = do
    id ← scan_uuid env event_id
    query env (Consumption.try_create_processed_event id consumer_name)

  unfoldable pub create_notification_delivery :
      CreateNotificationDeliveryParams → Action NotificationDelivery
  create_notification_delivery p = do
    id ← scan_uuid env p.id
    event_id ← scan_uuid env p.event_id
    query env (
        Consumption.create_notification_delivery (record {
          id = id;
          event_id = event_id;
          channel = p.channel;
          recipient = p.recipient;
          status = p.status;
        }))

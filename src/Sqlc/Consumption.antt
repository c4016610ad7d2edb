-- ===== src/Sqlc/Consumption.antt =====
-- internal/store/sqlc/processed_events.sql.go and notification_deliveries.sql.go.
use go_order_service.Prelude.{
  ℕ, String, Bool, ◌&&◌, ◌||◌, not, none, ◌∷◌, if◌then◌else◌, ◌==◌, nat_eq, string_eq,
}
use go_order_service.Prelude.Lists.{contains}
use go_order_service.Schema.{ProcessedEvent, NotificationDelivery}
use go_order_service.Runtime.{ok, err, no_rows, pg_error, Statement}

-- `ON CONFLICT DO NOTHING` inserts no row and returns none.
unfoldable pub try_create_processed_event : ℕ → String → Statement ProcessedEvent
try_create_processed_event event_id consumer_name now db =
    let row : ProcessedEvent = record {
      event_id = event_id;
      consumer_name = consumer_name;
      processed_at = now;
    } in
    if contains (λ e. e.event_id == event_id && e.consumer_name == consumer_name)
      db.processed_events
    then err no_rows
    else ok (row, record db { processed_events = row ∷ db.processed_events })

pub record CreateNotificationDeliveryParams : Type 0 where
  pub id : ℕ
  pub event_id : ℕ
  pub channel : String
  pub recipient : String
  pub status : String

-- `CHECK (status IN ('pending', 'sent', 'failed'))`
abbrev pub is_delivery_status : String → Bool
is_delivery_status status = status == "pending" || status == "sent" || status == "failed"

unfoldable pub create_notification_delivery :
    CreateNotificationDeliveryParams → Statement NotificationDelivery
create_notification_delivery p now db =
    let row : NotificationDelivery = record {
      id = p.id;
      event_id = p.event_id;
      channel = p.channel;
      recipient = p.recipient;
      status = p.status;
      attempt = 0;
      last_error = none;
      created_at = now;
      updated_at = now;
    } in
    if not (is_delivery_status p.status)
    then err (pg_error "23514")
    else if contains (λ d. d.id == p.id) db.notification_deliveries
    then err (pg_error "23505")
    else ok (row, record db { notification_deliveries = row ∷ db.notification_deliveries })

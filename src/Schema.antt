-- ===== src/Schema.antt =====
-- The tables of migrations/*.sql and the row types of internal/store/sqlc/models.go, with the
-- string constants of internal/service/order_service.go that their CHECK constraints list.
-- A UUID is the number that its sixteen bytes spell, a timestamp a number of microseconds, a
-- nullable column an `Option`.
use go_order_service.Prelude.{ℕ, String, ◌≡◌, ◌↔◌, Bool, true, false, Option, List, [], arith, Eq}
use go_order_service.Prelude.Int.{ℤ}
use go_order_service.Encoding.{Json}

-- `OrderStatusPendingPayment` and the three others.
pub data OrderStatus : Type 0 where
  pending_payment paid payment_failed cancelled : OrderStatus

-- `PaymentStatusSucceeded`, `PaymentStatusFailed`.
pub data PaymentStatus : Type 0 where
  succeeded failed : PaymentStatus

-- `AggregateTypeOrder`, `AggregateTypePayment`.
pub data AggregateType : Type 0 where
  order payment : AggregateType

-- `EventTypeOrderCreated` and the three others.
pub data EventType : Type 0 where
  order_created order_cancelled payment_succeeded payment_failed : EventType

abbrev pub order_status_text : OrderStatus → String
order_status_text pending_payment = "pending_payment"
order_status_text paid = "paid"
order_status_text OrderStatus.payment_failed = "payment_failed"
order_status_text cancelled = "cancelled"

abbrev pub payment_status_text : PaymentStatus → String
payment_status_text succeeded = "succeeded"
payment_status_text failed = "failed"

abbrev pub aggregate_type_text : AggregateType → String
aggregate_type_text order = "order"
aggregate_type_text payment = "payment"

abbrev pub event_type_text : EventType → String
event_type_text order_created = "order.created"
event_type_text order_cancelled = "order.cancelled"
event_type_text payment_succeeded = "payment.succeeded"
event_type_text EventType.payment_failed = "payment.failed"

abbrev pub order_status_beq : OrderStatus → OrderStatus → Bool
order_status_beq pending_payment pending_payment = true
order_status_beq paid paid = true
order_status_beq OrderStatus.payment_failed OrderStatus.payment_failed = true
order_status_beq cancelled cancelled = true
order_status_beq _ _ = false

abbrev pub payment_status_beq : PaymentStatus → PaymentStatus → Bool
payment_status_beq succeeded succeeded = true
payment_status_beq failed failed = true
payment_status_beq _ _ = false

abbrev pub event_type_beq : EventType → EventType → Bool
event_type_beq order_created order_created = true
event_type_beq order_cancelled order_cancelled = true
event_type_beq payment_succeeded payment_succeeded = true
event_type_beq EventType.payment_failed EventType.payment_failed = true
event_type_beq _ _ = false

pub order_status_beq_iff : (a b : OrderStatus) → (order_status_beq a b ≡ true) ↔ (a ≡ b)
order_status_beq_iff a b = ground arith

pub payment_status_beq_iff : (a b : PaymentStatus) → (payment_status_beq a b ≡ true) ↔ (a ≡ b)
payment_status_beq_iff a b = ground arith

pub event_type_beq_iff : (a b : EventType) → (event_type_beq a b ≡ true) ↔ (a ≡ b)
event_type_beq_iff a b = ground arith

instance abbrev pub order_status_eq : Eq OrderStatus
order_status_eq = record { beq = order_status_beq; beq_iff = order_status_beq_iff }

instance abbrev pub payment_status_eq : Eq PaymentStatus
payment_status_eq = record { beq = payment_status_beq; beq_iff = payment_status_beq_iff }

instance abbrev pub event_type_eq : Eq EventType
event_type_eq = record { beq = event_type_beq; beq_iff = event_type_beq_iff }

pub record User : Type 0 where
  pub id : ℕ
  pub email : String
  pub password_hash : String
  pub role : String
  pub created_at : ℕ
  pub updated_at : ℕ

pub record RefreshToken : Type 0 where
  pub id : ℕ
  pub user_id : ℕ
  pub token_hash : String
  pub expires_at : ℕ
  pub revoked_at : Option ℕ
  pub created_at : ℕ

pub record Order : Type 0 where
  pub id : ℕ
  pub user_id : ℕ
  pub status : OrderStatus
  pub amount_cents : ℤ
  pub currency : String
  pub description : Option String
  pub created_at : ℕ
  pub updated_at : ℕ

pub record Payment : Type 0 where
  pub id : ℕ
  pub order_id : ℕ
  pub status : PaymentStatus
  pub amount_cents : ℤ
  pub provider : String
  pub provider_ref : Option String
  pub failure_reason : Option String
  pub created_at : ℕ
  pub updated_at : ℕ

pub record IdempotencyKey : Type 0 where
  pub id : ℕ
  pub user_id : ℕ
  pub key : String
  pub method : String
  pub path : String
  pub request_hash : String
  pub response_body : Json
  pub status_code : Option ℕ
  pub resource_type : Option String
  pub resource_id : Option ℕ
  pub created_at : ℕ

pub record OutboxEvent : Type 0 where
  pub id : ℕ
  pub aggregate_type : AggregateType
  pub aggregate_id : ℕ
  pub event_type : EventType
  pub payload : Json
  pub published_at : Option ℕ
  pub attempt : ℕ
  pub last_error : Option String
  pub created_at : ℕ
  pub partition_key : ℕ

pub record ProcessedEvent : Type 0 where
  pub event_id : ℕ
  pub consumer_name : String
  pub processed_at : ℕ

pub record NotificationDelivery : Type 0 where
  pub id : ℕ
  pub event_id : ℕ
  pub channel : String
  pub recipient : String
  pub status : String
  pub attempt : ℕ
  pub last_error : Option String
  pub created_at : ℕ
  pub updated_at : ℕ

-- The database: a new row comes to the front of its table.
pub record Db : Type 0 where
  pub users : List User
  pub refresh_tokens : List RefreshToken
  pub orders : List Order
  pub payments : List Payment
  pub idempotency_keys : List IdempotencyKey
  pub outbox_events : List OutboxEvent
  pub processed_events : List ProcessedEvent
  pub notification_deliveries : List NotificationDelivery

-- What the migrations leave.
abbrev pub empty : Db
empty = record {
  users = [];
  refresh_tokens = [];
  orders = [];
  payments = [];
  idempotency_keys = [];
  outbox_events = [];
  processed_events = [];
  notification_deliveries = [];
}

-- ===== src/Store/Orders.antt =====
-- internal/store/store.go: orders and payments.
use go_order_service.Prelude.{String, Option, none, some, List, if◌then◌else◌, ◌==◌, string_eq}
use go_order_service.Prelude.Int.{ℤ}
use go_order_service.Schema.{OrderStatus, PaymentStatus, Order, Payment}
use go_order_service.Runtime.{Env, Action, ◌>>=◌, query, scan_uuid}
use go_order_service.Sqlc.Orders
use go_order_service.Sqlc.Payments

pub record CreateOrderParams : Type 0 where
  pub id : String
  pub user_id : String
  pub status : OrderStatus
  pub amount_cents : ℤ
  pub currency : String
  pub description : String

pub record CreatePaymentParams : Type 0 where
  pub id : String
  pub order_id : String
  pub status : PaymentStatus
  pub amount_cents : ℤ
  pub provider : String
  pub provider_ref : String
  pub failure_reason : String

-- `pgtype.Text{String: s, Valid: s != ""}`
abbrev pub text_or_null : String → Option String
text_or_null s = if s == "" then none else some s

module _ (env : Env) where
  unfoldable pub create_order : CreateOrderParams → Action Order
  create_order p = do
    id ← scan_uuid env p.id
    user_id ← scan_uuid env p.user_id
    query env (
        Orders.create_order (record {
          id = id;
          user_id = user_id;
          status = p.status;
          amount_cents = p.amount_cents;
          currency = p.currency;
          description = text_or_null p.description;
        }))

  unfoldable pub get_order : String → Action Order
  get_order id = do order_id ← scan_uuid env id; query env (Orders.get_order order_id)

  unfoldable pub list_orders_by_user : String → Action (List Order)
  list_orders_by_user user_id = do
    id ← scan_uuid env user_id
    query env (Orders.list_orders_by_user id)

  unfoldable pub list_orders : Action (List Order)
  list_orders = query env Orders.list_orders

  unfoldable pub get_order_for_update : String → Action Order
  get_order_for_update id = do
    order_id ← scan_uuid env id
    query env (Orders.get_order_for_update order_id)

  unfoldable pub update_order_status : String → OrderStatus → Action Order
  update_order_status id status = do
    order_id ← scan_uuid env id
    query env (Orders.update_order_status order_id status)

  unfoldable pub create_payment : CreatePaymentParams → Action Payment
  create_payment p = do
    id ← scan_uuid env p.id
    order_id ← scan_uuid env p.order_id
    query env (
        Payments.create_payment (record {
          id = id;
          order_id = order_id;
          status = p.status;
          amount_cents = p.amount_cents;
          provider = p.provider;
          provider_ref = text_or_null p.provider_ref;
          failure_reason = text_or_null p.failure_reason;
        }))

  unfoldable pub get_payment : String → Action Payment
  get_payment id = do payment_id ← scan_uuid env id; query env (Payments.get_payment payment_id)

-- ===== src/Orders/Pay.antt =====
-- internal/service/order_service.go: `PayOrder` and `mockPayment`.
pub mod Effects
pub mod Outcome
pub mod Replay
pub mod Progress
use Prim.Native.String.{◌++◌ as append}
use go_order_service.Prelude.{
  ℕ, String, Bool, true, false, ◌&&◌, ◌||◌, not, if◌then◌else◌, ◌==◌, string_eq,
}
use go_order_service.Prelude.Strings.{trim_space, has_suffix}
use go_order_service.Schema.{
  OrderStatus, pending_payment, paid, PaymentStatus, succeeded, failed, payment, EventType,
  payment_succeeded, Order, Payment, IdempotencyKey, order_status_eq, payment_status_eq,
}
use go_order_service.Runtime.{
  invalid_input, idempotency_key_required, idempotency_conflict, order_forbidden,
  order_invalid_status, order_not_found, Result, ok, err, Env, Action, pure, raise, ◌>>=◌, ◌>>◌,
  attempt, or_raise, payments, count_metric, new_uuid, with_tx,
}
use go_order_service.Store.Orders as OrderStore
use go_order_service.Store.Outbox as OutboxStore
use go_order_service.Store.Idempotency as IdempotencyStore
use go_order_service.Orders.Payloads.{payment_json, payment_row_json, hash_request_body, pay_body}
use go_order_service.Orders.Create.{uuid_text, conflicts, stored_status}

pub record PayOrderParams : Type 0 where
  pub user_id : String
  pub role : String
  pub order_id : String
  pub idempotency_key : String
  pub method : String
  pub path : String

pub record PayOrderResult : Type 0 where
  pub order : Order
  pub payment : Payment
  pub status_code : ℕ
  pub cached : Bool

-- What `mockPayment` returns.
pub record MockPayment : Type 0 where
  pub status : PaymentStatus
  pub provider_ref : String
  pub failure_reason : String

unfoldable pub mock_payment : String → MockPayment
mock_payment payment_id =
    if has_suffix payment_id "0" || has_suffix payment_id "f"
    then record { status = failed; provider_ref = ""; failure_reason = "mock payment declined" }
    else record {
      status = succeeded;
      provider_ref = append "mock_" payment_id;
      failure_reason = "";
    }

-- `nextOrderStatus` and `eventType`.
abbrev pub next_order_status : PaymentStatus → OrderStatus
next_order_status failed = OrderStatus.payment_failed
next_order_status succeeded = paid

abbrev pub payment_event_type : PaymentStatus → EventType
payment_event_type failed = EventType.payment_failed
payment_event_type succeeded = payment_succeeded

-- `order.Status != OrderStatusPendingPayment && order.Status != OrderStatusPaymentFailed`
abbrev pub is_settled : OrderStatus → Bool
is_settled s = not (s == pending_payment) && not (s == OrderStatus.payment_failed)

module _ (env : Env) where
  -- `params.Role != "admin" && order.UserID.String() != params.UserID`
  abbrev pub is_stranger : String → String → Order → Bool
  is_stranger role user_id o = not (role == "admin") && not (env.render o.user_id == user_id)

  abbrev pub pay_key : PayOrderParams → String
  pay_key p = trim_space p.idempotency_key

  abbrev pub pay_hash : PayOrderParams → String
  pay_hash p = hash_request_body env (pay_body p.order_id)

  pub replay_pay : PayOrderParams → IdempotencyKey → Action PayOrderResult
  replay_pay p existing =
      if conflicts existing p.method p.path (pay_hash p) then raise idempotency_conflict else do
        paid_by ← OrderStore.get_payment env (uuid_text env existing.resource_id)
        found ← OrderStore.get_order env (env.render paid_by.order_id)
        pure (record {
          order = found;
          payment = paid_by;
          status_code = stored_status existing;
          cached = true;
        })

  -- The writes of the transaction, for an order that may be paid.
  pub charge : PayOrderParams → Order → Action PayOrderResult
  charge p o = do
    payment_id ← new_uuid env
    let outcome = mock_payment payment_id
    made ← OrderStore.create_payment env (record {
      id = payment_id;
      order_id = env.render o.id;
      status = outcome.status;
      amount_cents = o.amount_cents;
      provider = "mock";
      provider_ref = outcome.provider_ref;
      failure_reason = outcome.failure_reason;
    })
    updated ←
        OrderStore.update_order_status env (env.render o.id) (next_order_status outcome.status)
    event_id ← new_uuid env
    OutboxStore.create_outbox_event env (record {
      id = event_id;
      aggregate_type = payment;
      aggregate_id = env.render made.id;
      partition_key = env.render o.id;
      event_type = payment_event_type outcome.status;
      payload = payment_json (record {
        payment_id = env.render made.id;
        order_id = env.render o.id;
        user_id = env.render o.user_id;
        status = made.status;
        amount_cents = made.amount_cents;
        currency = o.currency;
        provider = made.provider;
        provider_ref = outcome.provider_ref;
        failure_reason = outcome.failure_reason;
      });
    })
    key_id ← new_uuid env
    IdempotencyStore.create_idempotency_key env (record {
      id = key_id;
      user_id = p.user_id;
      key = pay_key p;
      method = p.method;
      path = p.path;
      request_hash = pay_hash p;
      response_body = payment_row_json env made;
      status_code = 200;
      resource_type = "payment";
      resource_id = env.render made.id;
    })
    pure (record { order = updated; payment = made; status_code = 200; cached = false })

  pub pay_order_body : PayOrderParams → Action PayOrderResult
  unfolding charge
  pay_order_body p = do
    o ← or_raise (OrderStore.get_order_for_update env p.order_id) order_not_found
    if is_stranger p.role p.user_id o
        then raise order_forbidden
        else (if is_settled o.status then raise order_invalid_status else charge p o)

  pub pay_new : PayOrderParams → Action PayOrderResult
  unfolding pay_order_body
  pay_new p = do
    result ← with_tx env (pay_order_body p)
    count_metric (payments result.payment.status)
    pure result

  pub answer_pay : PayOrderParams → Result IdempotencyKey → Action PayOrderResult
  unfolding replay_pay pay_new
  answer_pay p (ok existing) = replay_pay p existing
  answer_pay p (err _) = pay_new p

  unfoldable pub pay_order : PayOrderParams → Action PayOrderResult
  unfolding answer_pay
  pay_order p =
      if p.user_id == "" || p.order_id == ""
      then raise invalid_input
      else if pay_key p == ""
      then raise idempotency_key_required
      else do
        existing ← attempt (IdempotencyStore.get_idempotency_key env p.user_id (pay_key p))
        answer_pay p existing

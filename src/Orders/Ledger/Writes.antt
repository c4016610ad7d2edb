-- ===== src/Orders/Ledger/Writes.antt =====
-- The writes of the three methods keep the invariant of the orders.
use go_order_service.Prelude.{
  ℕ, ◌≡◌, Bool, true, false, Option, none, some, List, [], ◌∷◌, arith, ◌==◌, nat_eq,
}
use go_order_service.Prelude.Lists.{update}
use go_order_service.Schema.{Db, Order, OrderStatus, cancelled, payment_status_eq}
use go_order_service.Runtime.{Env}
use go_order_service.Sqlc.Orders.{find_order}
use go_order_service.Orders.Create.{CreateOrderParams}
use go_order_service.Orders.Create.Effects.{Created}
use go_order_service.Orders.Pay.{PayOrderParams, PayOrderResult, next_order_status}
use go_order_service.Orders.Pay.Effects.{Charged}
use go_order_service.Orders.Cancel.{CancelOrderParams}
use go_order_service.Orders.Cancel.Effects.{Withdrawn}
use go_order_service.Orders.Ledger.{IsLedger}

-- `UPDATE orders SET status, updated_at`, on the rows and on one row that is found.
abbrev pub set_status : ℕ → OrderStatus → ℕ → List Order → List Order
set_status id status now =
    update (λ r. r.id == id) (λ r. record r { status = status; updated_at = now })

abbrev pub restated : Bool → OrderStatus → ℕ → Option Order → Option Order
restated b status now none = none
restated true status now (some o) = some (record o { status = status; updated_at = now })
restated false status now (some o) = some o

pub find_order-set_status :
    (k id : ℕ) (status : OrderStatus) (now : ℕ) (os : List Order)
    → find_order k (set_status id status now os) ≡ restated (k == id) status now (find_order k os)
find_order-set_status k id status now [] = ground arith
find_order-set_status k id status now (o ∷ os) =
    ground (arith, find_order-set_status k id status now os)

pub Created-IsLedger :
    (env : Env) (p : CreateOrderParams) (o : Order) (before after : Db)
    → Created env p before o after
    → IsLedger before
    → IsLedger after
Created-IsLedger env p o before after c h = record {
  charged = λ id. rw c.stores (ground (arith, h.charged id));
  created_events = λ id. rw c.stores (ground (arith, h.created_events id));
  success_events = λ id. rw c.stores (ground (arith, h.success_events id));
  failure_events = λ id. rw c.stores (ground (arith, h.failure_events id));
  cancel_events = λ id. rw c.stores (ground (arith, h.cancel_events id));
  positive = λ id. rw c.stores (ground (arith, h.positive id));
}

pub Charged-IsLedger :
    (env : Env) (p : PayOrderParams) (r : PayOrderResult) (before after : Db)
    → Charged env p before r after
    → IsLedger before
    → IsLedger after
Charged-IsLedger env p r before after c h = record {
  charged = λ id. rw c.stores (
      ground (
        arith,
        find_order-set_status id c.old.id (next_order_status r.payment.status) r.order.updated_at
            before.orders,
        c.found,
        h.charged id,
      ));
  created_events = λ id. rw c.stores (
      ground (
        arith,
        find_order-set_status id c.old.id (next_order_status r.payment.status) r.order.updated_at
            before.orders,
        c.found,
        h.created_events id,
      ));
  success_events = λ id. rw c.stores (ground (arith, h.success_events id));
  failure_events = λ id. rw c.stores (ground (arith, h.failure_events id));
  cancel_events = λ id. rw c.stores (
      ground (
        arith,
        find_order-set_status id c.old.id (next_order_status r.payment.status) r.order.updated_at
            before.orders,
        c.found,
        h.cancel_events id,
      ));
  positive = λ id. rw c.stores (
      ground (
        arith,
        find_order-set_status id c.old.id (next_order_status r.payment.status) r.order.updated_at
            before.orders,
        c.found,
        h.positive id,
      ));
}

pub Withdrawn-IsLedger :
    (env : Env) (p : CancelOrderParams) (o : Order) (before after : Db)
    → Withdrawn env p before o after
    → IsLedger before
    → IsLedger after
Withdrawn-IsLedger env p o before after c h = record {
  charged = λ id. rw c.stores (
      ground (
        arith,
        find_order-set_status id c.old.id cancelled o.updated_at before.orders,
        c.found,
        h.charged id,
      ));
  created_events = λ id. rw c.stores (
      ground (
        arith,
        find_order-set_status id c.old.id cancelled o.updated_at before.orders,
        c.found,
        h.created_events id,
      ));
  success_events = λ id. rw c.stores (ground (arith, h.success_events id));
  failure_events = λ id. rw c.stores (ground (arith, h.failure_events id));
  cancel_events = λ id. rw c.stores (
      ground (
        arith,
        find_order-set_status id c.old.id cancelled o.updated_at before.orders,
        c.found,
        h.cancel_events id,
      ));
  positive = λ id. rw c.stores (
      ground (
        arith,
        find_order-set_status id c.old.id cancelled o.updated_at before.orders,
        c.found,
        h.positive id,
      ));
}

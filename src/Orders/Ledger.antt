-- ===== src/Orders/Ledger.antt =====
-- The invariant of the orders, their payments and the events of the outbox, for the writes of
-- internal/service/order_service.go.
pub mod Writes
use go_order_service.Prelude.{
  ℕ, suc, ◌≡◌, Bool, true, false, ◌&&◌, Option, none, some, ◌==◌, nat_eq,
}
use go_order_service.Prelude.Int.{pos, leb_ℤ}
use go_order_service.Prelude.Lists.{find, count}
use go_order_service.Schema.{
  Db, Order, OrderStatus, paid, cancelled, Payment, PaymentStatus, succeeded, failed, OutboxEvent,
  EventType, order_created, order_cancelled, payment_succeeded, payment_status_eq, event_type_eq,
  order_status_eq,
}
use go_order_service.Sqlc.Orders.{find_order}

-- How often an order counts: once if it is there and passes the test.
abbrev pub tally : (Order → Bool) → Option Order → ℕ
tally test none = 0
tally test (some o) = elim (test o) [ true ↦ 1 | false ↦ 0 ]

abbrev pub is_paid : Order → Bool
is_paid o = o.status == paid

abbrev pub is_cancelled : Order → Bool
is_cancelled o = o.status == cancelled

abbrev pub is_any : Order → Bool
is_any o = true

abbrev pub is_unpriced : Order → Bool
is_unpriced o = leb_ℤ o.amount_cents (pos 0)

-- The payments of an order that ended so.
abbrev pub payments_of : ℕ → PaymentStatus → Db → ℕ
payments_of id status db = count (λ y. y.order_id == id && y.status == status) db.payments

-- The events of a type in an order's partition.
abbrev pub events_of : ℕ → EventType → Db → ℕ
events_of id type db = count (λ e. e.partition_key == id && e.event_type == type) db.outbox_events

-- Each order is paid once or not at all, and the outbox tells each order's story: one creation, one
-- event for each payment, one cancellation at most.
pub record IsLedger (db : Db) : Type 0 where
  pub charged : (id : ℕ) → payments_of id succeeded db ≡ tally is_paid (find_order id db.orders)
  pub created_events :
      (id : ℕ) → events_of id order_created db ≡ tally is_any (find_order id db.orders)
  pub success_events : (id : ℕ) → events_of id payment_succeeded db ≡ payments_of id succeeded db
  pub failure_events :
      (id : ℕ) → events_of id EventType.payment_failed db ≡ payments_of id failed db
  pub cancel_events :
      (id : ℕ) → events_of id order_cancelled db ≡ tally is_cancelled (find_order id db.orders)
  pub positive : (id : ℕ) → tally is_unpriced (find_order id db.orders) ≡ 0

-- ===== src/Store/Writes.antt =====
-- What the inserts and updates of internal/store/store.go leave behind where they succeed.
use go_order_service.Prelude.{String, ◌≡◌, false, none, some, ◌∷◌, arith, ◌==◌, nat_eq, string_eq}
use go_order_service.Prelude.Int.{pos, leb_ℤ}
use go_order_service.Prelude.Lists.{update, contains}
use go_order_service.Schema.{Db, OrderStatus, Order, Payment, OutboxEvent, IdempotencyKey}
use go_order_service.Runtime.{Env, World, query, scan_uuid, ◌>>=◌}
use go_order_service.Runtime.Ends.{Ends, Any}
use go_order_service.Sqlc.Orders as OrderQueries
use go_order_service.Sqlc.Orders.{find_order}
use go_order_service.Sqlc.Payments as PaymentQueries
use go_order_service.Sqlc.Payments.{find_payment}
use go_order_service.Sqlc.Idempotency as IdempotencyQueries
use go_order_service.Sqlc.Idempotency.{find_key}
use go_order_service.Sqlc.Outbox as OutboxQueries
use go_order_service.Store.Orders
use go_order_service.Store.Orders.{text_or_null}
use go_order_service.Store.Idempotency
use go_order_service.Store.Idempotency.{int_or_null}
use go_order_service.Store.Outbox

pub record OrderInserted (env : Env) (p : Orders.CreateOrderParams) (before : Db) (o : Order)
    (after : Db) : Type 0 where
  pub inserts : after ≡ record before { orders = o ∷ before.orders }
  pub id : env.scan p.id ≡ some o.id
  pub user : env.scan p.user_id ≡ some o.user_id
  pub status : o.status ≡ p.status
  pub amount : o.amount_cents ≡ p.amount_cents
  pub currency : o.currency ≡ p.currency
  pub description : o.description ≡ text_or_null p.description
  pub positive : leb_ℤ o.amount_cents (pos 0) ≡ false
  pub fresh : find_order o.id before.orders ≡ none

pub record PaymentInserted (env : Env) (p : Orders.CreatePaymentParams) (before : Db) (y : Payment)
    (after : Db) : Type 0 where
  pub inserts : after ≡ record before { payments = y ∷ before.payments }
  pub id : env.scan p.id ≡ some y.id
  pub order : env.scan p.order_id ≡ some y.order_id
  pub status : y.status ≡ p.status
  pub amount : y.amount_cents ≡ p.amount_cents
  pub provider : y.provider ≡ p.provider
  pub provider_ref : y.provider_ref ≡ text_or_null p.provider_ref
  pub failure_reason : y.failure_reason ≡ text_or_null p.failure_reason
  pub fresh : find_payment y.id before.payments ≡ none

pub record EventInserted (env : Env) (p : Outbox.CreateOutboxEventParams) (before : Db)
    (e : OutboxEvent) (after : Db) : Type 0 where
  pub inserts : after ≡ record before { outbox_events = e ∷ before.outbox_events }
  pub id : env.scan p.id ≡ some e.id
  pub aggregate_type : e.aggregate_type ≡ p.aggregate_type
  pub aggregate : env.scan p.aggregate_id ≡ some e.aggregate_id
  pub partition : env.scan p.partition_key ≡ some e.partition_key
  pub event_type : e.event_type ≡ p.event_type
  pub payload : e.payload ≡ p.payload
  pub unpublished : e.published_at ≡ none
  pub fresh : contains (λ r. r.id == e.id) before.outbox_events ≡ false

pub record KeyInserted (env : Env) (p : Idempotency.CreateIdempotencyKeyParams) (before : Db)
    (k : IdempotencyKey) (after : Db) : Type 0 where
  pub inserts : after ≡ record before { idempotency_keys = k ∷ before.idempotency_keys }
  pub user : env.scan p.user_id ≡ some k.user_id
  pub key : k.key ≡ p.key
  pub method : k.method ≡ p.method
  pub path : k.path ≡ p.path
  pub request_hash : k.request_hash ≡ p.request_hash
  pub status_code : k.status_code ≡ int_or_null p.status_code
  pub resource_type : k.resource_type ≡ text_or_null p.resource_type
  pub resource : k.resource_id ≡ env.scan p.resource_id
  pub fresh : find_key k.user_id k.key before.idempotency_keys ≡ none

-- `old` is the order as it was found.
pub record StatusUpdated (old : Order) (status : OrderStatus) (before : Db) (o : Order) (after : Db)
    : Type 0 where
  pub updates : o ≡ record old { status = status; updated_at = o.updated_at }
  pub stores : after ≡ record before {
    orders =
        update
          (λ r. r.id == old.id)
          (λ r. record r { status = status; updated_at = o.updated_at })
          before.orders;
  }

module _ (env : Env) where
  pub create_order-OrderInserted :
      (p : Orders.CreateOrderParams) (w : World)
      → Ends (OrderInserted env p w.db) Any (Orders.create_order env p w)
  unfolding Orders.create_order query scan_uuid ◌>>=◌ OrderQueries.create_order
  create_order-OrderInserted p w = ground arith

  pub create_payment-PaymentInserted :
      (p : Orders.CreatePaymentParams) (w : World)
      → Ends (PaymentInserted env p w.db) Any (Orders.create_payment env p w)
  unfolding Orders.create_payment query scan_uuid ◌>>=◌ PaymentQueries.create_payment
  create_payment-PaymentInserted p w = ground arith

  pub create_outbox_event-EventInserted :
      (p : Outbox.CreateOutboxEventParams) (w : World)
      → Ends (EventInserted env p w.db) Any (Outbox.create_outbox_event env p w)
  unfolding Outbox.create_outbox_event query scan_uuid ◌>>=◌ OutboxQueries.create_outbox_event
  create_outbox_event-EventInserted p w = ground arith

  -- Where a resource is named, its text is scanned.
  pub create_idempotency_key-KeyInserted :
      (p : Idempotency.CreateIdempotencyKeyParams) (w : World)
      → (p.resource_id == "") ≡ false
      → Ends (KeyInserted env p w.db) Any (Idempotency.create_idempotency_key env p w)
  unfolding Idempotency.create_idempotency_key query scan_uuid ◌>>=◌
      IdempotencyQueries.create_idempotency_key
  create_idempotency_key-KeyInserted p w h = ground arith

  -- The row that was read for update is there, and is the one that is written.
  pub update_order_status-StatusUpdated :
      (id : String) (status : OrderStatus) (old : Order) (w : World)
      → env.scan id ≡ some old.id
      → find_order old.id w.db.orders ≡ some old
      → Ends (StatusUpdated old status w.db) Any (Orders.update_order_status env id status w)
  unfolding Orders.update_order_status query scan_uuid ◌>>=◌ OrderQueries.update_order_status
  update_order_status-StatusUpdated id status old w scanned found = ground arith

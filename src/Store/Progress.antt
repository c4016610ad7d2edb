-- ===== src/Store/Progress.antt =====
-- The inserts and updates of internal/store/store.go while nothing outside fails and the constraints
-- of the tables are met.
use go_order_service.Prelude.{
  String, ℕ, ◌≡◌, true, false, none, some, ◌∷◌, arith, ◌==◌, nat_eq, string_eq,
}
use go_order_service.Prelude.Int.{pos, leb_ℤ}
use go_order_service.Prelude.Strings.{has_nul}
use go_order_service.Prelude.{◌||◌}
use go_order_service.Prelude.Lists.{contains}
use go_order_service.Schema.{OrderStatus, Order}
use go_order_service.Runtime.{Env, World, query, scan_uuid, ◌>>=◌}
use go_order_service.Runtime.Ends.{Ends}
use go_order_service.Runtime.Reachable.{Reachable, Never}
use go_order_service.Sqlc.Orders as OrderQueries
use go_order_service.Sqlc.Orders.{find_order}
use go_order_service.Sqlc.Payments as PaymentQueries
use go_order_service.Sqlc.Idempotency as KeyQueries
use go_order_service.Sqlc.Idempotency.{find_key}
use go_order_service.Sqlc.Outbox as OutboxQueries
use go_order_service.Sqlc.Outbox.{fits_aggregate}
use go_order_service.Store.Orders
use go_order_service.Store.Idempotency
use go_order_service.Store.Outbox

module _ (env : Env) (good : Reachable env) where
  pub create_order-Never :
      (p : Orders.CreateOrderParams) (id user : ℕ) (w : World)
      → env.scan p.id ≡ some id
      → env.scan p.user_id ≡ some user
      → (has_nul p.currency || has_nul p.description) ≡ false
      → leb_ℤ p.amount_cents (pos 0) ≡ false
      → contains (λ o. o.id == id) w.db.orders ≡ false
      → contains (λ u. u.id == user) w.db.users ≡ true
      → Ends
          (λ o db. db ≡ record w.db { orders = o ∷ w.db.orders })
          Never
          (Orders.create_order env p w)
  unfolding Orders.create_order query scan_uuid ◌>>=◌ OrderQueries.create_order
  create_order-Never p id user w scanned owner plain positive free there =
      ground (arith, good.answers w.ticks)

  pub create_outbox_event-Never :
      (p : Outbox.CreateOutboxEventParams) (id aggregate partition : ℕ) (w : World)
      → env.scan p.id ≡ some id
      → env.scan p.aggregate_id ≡ some aggregate
      → env.scan p.partition_key ≡ some partition
      → fits_aggregate p.aggregate_type p.event_type ≡ true
      → contains (λ e. e.id == id) w.db.outbox_events ≡ false
      → Ends
          (λ e db. db ≡ record w.db { outbox_events = e ∷ w.db.outbox_events })
          Never
          (Outbox.create_outbox_event env p w)
  unfolding Outbox.create_outbox_event query scan_uuid ◌>>=◌ OutboxQueries.create_outbox_event
  create_outbox_event-Never p id aggregate partition w scanned of_ in_ fits free =
      ground (arith, good.answers w.ticks)

  pub create_idempotency_key-Never :
      (p : Idempotency.CreateIdempotencyKeyParams) (id user resource : ℕ) (w : World)
      → env.scan p.id ≡ some id
      → env.scan p.user_id ≡ some user
      → env.scan p.resource_id ≡ some resource
      → (has_nul p.key || has_nul p.method || has_nul p.path) ≡ false
      → contains (λ k. k.id == id) w.db.idempotency_keys ≡ false
      → find_key user p.key w.db.idempotency_keys ≡ none
      → contains (λ u. u.id == user) w.db.users ≡ true
      → Ends
          (λ k db. db ≡ record w.db { idempotency_keys = k ∷ w.db.idempotency_keys })
          Never
          (Idempotency.create_idempotency_key env p w)
  unfolding Idempotency.create_idempotency_key query scan_uuid ◌>>=◌
      KeyQueries.create_idempotency_key
  create_idempotency_key-Never p id user resource w scanned owner of_ plain free first there =
      ground (arith, good.answers w.ticks)

  pub create_payment-Never :
      (p : Orders.CreatePaymentParams) (id order : ℕ) (w : World)
      → env.scan p.id ≡ some id
      → env.scan p.order_id ≡ some order
      → leb_ℤ p.amount_cents (pos 0) ≡ false
      → contains (λ y. y.id == id) w.db.payments ≡ false
      → contains (λ o. o.id == order) w.db.orders ≡ true
      → Ends
          (λ y db. db ≡ record w.db { payments = y ∷ w.db.payments })
          Never
          (Orders.create_payment env p w)
  unfolding Orders.create_payment query scan_uuid ◌>>=◌ PaymentQueries.create_payment
  create_payment-Never p id order w scanned of_ positive free there =
      ground (arith, good.answers w.ticks)

  pub update_order_status-Never :
      (o : Order) (status : OrderStatus) (w : World)
      → find_order o.id w.db.orders ≡ some o
      → Ends
          (λ x db. (x.id ≡ o.id) × (db ≡ record w.db { orders = db.orders }))
          Never
          (Orders.update_order_status env (env.render o.id) status w)
  unfolding Orders.update_order_status query scan_uuid ◌>>=◌ OrderQueries.update_order_status
  update_order_status-Never o status w found =
      ground (arith, good.answers w.ticks, env.scan-render o.id)

  pub get_order_for_update-Never :
      (text : String) (o : Order) (w : World)
      → env.scan text ≡ some o.id
      → find_order o.id w.db.orders ≡ some o
      → Ends (λ x db. (x ≡ o) × (db ≡ w.db)) Never (Orders.get_order_for_update env text w)
  unfolding Orders.get_order_for_update query scan_uuid ◌>>=◌ OrderQueries.get_order_for_update
  get_order_for_update-Never text o w scanned found = ground (arith, good.answers w.ticks)

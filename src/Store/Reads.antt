-- ===== src/Store/Reads.antt =====
-- What the searches of internal/store/store.go return: a row of the table, and no change.
use go_order_service.Prelude.{
  ℕ, String, ◌≡◌, ◌&&◌, some, List, arith, ◌==◌, nat_eq, string_eq, eq_iff,
}
use go_order_service.Prelude.Lists.{find-test}
use go_order_service.Schema.{Db, Order, Payment, IdempotencyKey}
use go_order_service.Runtime.{Error, Env, World, query, scan_uuid, ◌>>=◌, or_raise}
use go_order_service.Runtime.Ends.{Ends}
use go_order_service.Sqlc.Orders as OrderQueries
use go_order_service.Sqlc.Orders.{find_order}
use go_order_service.Sqlc.Payments as PaymentQueries
use go_order_service.Sqlc.Payments.{find_payment}
use go_order_service.Sqlc.Idempotency as IdempotencyQueries
use go_order_service.Sqlc.Idempotency.{find_key}
use go_order_service.Store.Orders
use go_order_service.Store.Idempotency

pub find_order-id : (u : ℕ) (os : List Order) (o : Order) → find_order u os ≡ some o → o.id ≡ u
find_order-id u os o h = ground (arith, find-test (λ (r : Order). r.id == u) os o h)

pub find_payment-id :
    (u : ℕ) (ys : List Payment) (y : Payment) → find_payment u ys ≡ some y → y.id ≡ u
find_payment-id u ys y h = ground (arith, find-test (λ (r : Payment). r.id == u) ys y h)

pub find_key-fields :
    (u : ℕ) (key : String) (ks : List IdempotencyKey) (k : IdempotencyKey)
    → find_key u key ks ≡ some k
    → (k.user_id ≡ u) × (k.key ≡ key)
find_key-fields u key ks k h = ground (
  arith,
  find-test (λ (r : IdempotencyKey). r.user_id == u && r.key == key) ks k h,
  eq_iff k.key key,
)

pub record OrderFound (env : Env) (id : String) (before : Db) (o : Order) (after : Db)
    : Type 0 where
  pub unchanged : after ≡ before
  pub scanned : env.scan id ≡ some o.id
  pub found : find_order o.id before.orders ≡ some o

pub record PaymentFound (env : Env) (id : String) (before : Db) (y : Payment) (after : Db)
    : Type 0 where
  pub unchanged : after ≡ before
  pub scanned : env.scan id ≡ some y.id
  pub found : find_payment y.id before.payments ≡ some y

pub record KeyFound (env : Env) (user_id key : String) (before : Db) (k : IdempotencyKey)
    (after : Db) : Type 0 where
  pub unchanged : after ≡ before
  pub scanned : env.scan user_id ≡ some k.user_id
  pub text : k.key ≡ key
  pub found : find_key k.user_id key before.idempotency_keys ≡ some k

-- No condition but that nothing has changed.
abbrev pub Same : Db → Error → Db → Type 0
Same before e db = db ≡ before

module _ (env : Env) where
  pub get_order-OrderFound :
      (id : String) (w : World)
      → Ends (OrderFound env id w.db) (Same w.db) (Orders.get_order env id w)
  unfolding Orders.get_order query scan_uuid ◌>>=◌ OrderQueries.get_order
  get_order-OrderFound id w = grind (arith, find_order-id)

  pub get_payment-PaymentFound :
      (id : String) (w : World)
      → Ends (PaymentFound env id w.db) (Same w.db) (Orders.get_payment env id w)
  unfolding Orders.get_payment query scan_uuid ◌>>=◌ PaymentQueries.get_payment
  get_payment-PaymentFound id w = grind (arith, find_payment-id)

  pub get_order_for_update-OrderFound :
      (id : String) (e : Error) (w : World)
      → Ends
          (OrderFound env id w.db)
          (Same w.db)
          (or_raise (Orders.get_order_for_update env id) e w)
  unfolding Orders.get_order_for_update query scan_uuid ◌>>=◌ or_raise
      OrderQueries.get_order_for_update
  get_order_for_update-OrderFound id e w = grind (arith, find_order-id)

  pub get_idempotency_key-KeyFound :
      (user_id key : String) (w : World)
      → Ends
          (KeyFound env user_id key w.db)
          (Same w.db)
          (Idempotency.get_idempotency_key env user_id key w)
  unfolding Idempotency.get_idempotency_key query scan_uuid ◌>>=◌
      IdempotencyQueries.get_idempotency_key
  get_idempotency_key-KeyFound user_id key w = grind (arith, find_key-fields)

-- ===== src/Orders/Pay/Replay.antt =====
-- Requests to `PayOrder` that are sent again.
use mathlib.Core.Path.{subst}
use go_order_service.Prelude.{
  ℕ, suc, ◌≡◌, inl, inr, true, false, ◌||◌, some, arith, ◌==◌, string_eq, eq_iff,
}
use go_order_service.Schema.{Db, Order, Payment, IdempotencyKey}
use go_order_service.Runtime.{
  ok, err, Env, World, tick, attempt, ◌>>=◌, query, scan_uuid, idempotency_conflict,
}
use go_order_service.Runtime.Ends.{Ends, Atomic}
use go_order_service.Sqlc.Orders as OrderQueries
use go_order_service.Sqlc.Payments as PaymentQueries
use go_order_service.Sqlc.Idempotency as KeyQueries
use go_order_service.Sqlc.Idempotency.{find_key}
use go_order_service.Store.Orders as OrderStore
use go_order_service.Store.Idempotency as KeyStore
use go_order_service.Orders.Create.{conflicts}
use go_order_service.Orders.Ledger.Writes.{find_order-set_status}
use go_order_service.Orders.Pay.{
  PayOrderParams, PayOrderResult, pay_key, pay_hash, next_order_status, pay_order,
}
use go_order_service.Orders.Pay.Effects.{Charged}
use go_order_service.Orders.Pay.Outcome.{Recorded, PayOutcome, pay_order-Outcome}

-- The next three statements reach the server.
pub record Quiet (env : Env) (w : World) : Type 0 where
  pub first : env.fault w.ticks ≡ false
  pub second : env.fault (suc w.ticks) ≡ false
  pub third : env.fault (suc (suc w.ticks)) ≡ false

-- The tests that a request passes before its key is looked up.
pub record Admissible (env : Env) (p : PayOrderParams) : Type 0 where
  pub complete : (p.user_id == "" || p.order_id == "") ≡ false
  pub keyed : (pay_key env p == "") ≡ false

module _ (env : Env) (p : PayOrderParams) where
  -- A recorded payment is answered by itself and its order, as the order is now, with the recorded
  -- status code, and nothing is written while the server can be reached: there is no second charge.
  pub pay_order-Recorded :
      (y : Payment) (o : Order) (code : ℕ) (w : World)
      → Quiet env w
      → Admissible env p
      → Recorded env p y o code w.db
      → pay_order env p w ≡ (
        ok (record { order = o; payment = y; status_code = code; cached = true }),
        record w { ticks = suc (suc (suc w.ticks)) },
      )
  unfolding pay_order ◌>>=◌ attempt query scan_uuid KeyStore.get_idempotency_key
      KeyQueries.get_idempotency_key OrderStore.get_order OrderQueries.get_order
      OrderStore.get_payment PaymentQueries.get_payment
  pay_order-Recorded y o code w quiet ready there = ground (arith, env.scan-render y.order_id)

  -- A complete request with a key that is recorded for another request is refused, and nothing is
  -- written, if the server can be reached.
  pub pay_order_conflict :
      (user : ℕ) (k : IdempotencyKey) (w : World)
      → env.fault w.ticks ≡ false
      → Admissible env p
      → env.scan p.user_id ≡ some user
      → find_key user (pay_key env p) w.db.idempotency_keys ≡ some k
      → conflicts k p.method p.path (pay_hash env p) ≡ true
      → pay_order env p w ≡ (err idempotency_conflict, tick w)
  unfolding pay_order ◌>>=◌ attempt query scan_uuid KeyStore.get_idempotency_key
      KeyQueries.get_idempotency_key
  pay_order_conflict user k w quiet ready owner found differs = ground arith

  Charged-Recorded :
      (r : PayOrderResult) (before after : Db)
      → Charged env p before r after
      → Recorded env p r.payment r.order r.status_code after
  Charged-Recorded r before after c = record {
    key = c.key;
    owner = c.key_user;
    found = rw c.stores (ground (arith, eq_iff c.key.key (pay_key env p)));
    agrees = ground (
      arith,
      eq_iff c.key.method p.method,
      eq_iff c.key.path p.path,
      eq_iff c.key.request_hash (pay_hash env p),
    );
    resource = ground (arith, env.scan-render r.payment.id);
    made = rw c.stores (ground arith);
    stored = rw c.stores (
        ground (
          arith,
          find_order-set_status c.old.id c.old.id (next_order_status r.payment.status)
              r.order.updated_at before.orders,
        ));
    status = ground arith;
  }

  PayOutcome-Recorded :
      (r : PayOrderResult) (before after : Db)
      → PayOutcome env p before r after
      → Recorded env p r.payment r.order r.status_code after
  PayOutcome-Recorded r before after (inl made) = Charged-Recorded r before after made
  PayOutcome-Recorded r before after (inr (same, there, _)) = rw same there

  pay_order-Admissible :
      (r : PayOrderResult) (w w' : World) → pay_order env p w ≡ (ok r, w') → Admissible env p
  unfolding pay_order
  pay_order-Admissible r w w' e = ground arith

  pub pay_order_twice :
      (r : PayOrderResult) (w w' : World)
      → Quiet env w'
      → pay_order env p w ≡ (ok r, w')
      → pay_order env p w'
        ≡ (ok (record r { cached = true }), record w' { ticks = suc (suc (suc w'.ticks)) })
  pay_order_twice r w w' quiet e =
      pay_order-Recorded r.payment r.order r.status_code w' quiet (pay_order-Admissible r w w' e) (
        PayOutcome-Recorded r w.db w'.db
          (subst (Ends (PayOutcome env p w.db) (Atomic w.db (Charged env p w.db))) e
            (pay_order-Outcome env p w)).as_stated)

-- ===== src/Orders/Create/Replay.antt =====
-- Requests to `CreateOrder` that are sent again.
use mathlib.Core.Path.{subst}
use go_order_service.Prelude.{
  ℕ, suc, ◌≡◌, sym, inl, inr, true, false, some, arith, ◌∙◌, string_eq, eq_iff,
}
use go_order_service.Schema.{Db, Order, IdempotencyKey}
use go_order_service.Runtime.{
  ok, err, Env, World, tick, attempt, ◌>>=◌, query, scan_uuid, idempotency_conflict,
}
use go_order_service.Runtime.Ends.{Ends, Atomic}
use go_order_service.Sqlc.Orders as OrderQueries
use go_order_service.Sqlc.Orders.{find_order}
use go_order_service.Sqlc.Idempotency as KeyQueries
use go_order_service.Sqlc.Idempotency.{find_key}
use go_order_service.Store.Reads.{find_order-id}
use go_order_service.Store.Orders as OrderStore
use go_order_service.Store.Idempotency as KeyStore
use go_order_service.Orders.Create.{
  CreateOrderParams, CreateOrderResult, conflicts, create_key, create_hash, create_order,
}
use go_order_service.Orders.Create.Effects.{Created}
use go_order_service.Orders.Create.Outcome.{
  Admissible, Recorded, CreateOutcome, create_order-Outcome,
}

-- The next two statements reach the server.
pub record Quiet (env : Env) (w : World) : Type 0 where
  pub first : env.fault w.ticks ≡ false
  pub second : env.fault (suc w.ticks) ≡ false

module _ (env : Env) (p : CreateOrderParams) where
  -- A recorded request is answered by its order, as the order is now, with the recorded status, and
  -- nothing is written, while the server can be reached.
  pub create_order-Recorded :
      (o : Order) (code : ℕ) (w : World)
      → Quiet env w
      → Admissible env p
      → Recorded env p o code w.db
      → create_order env p w ≡ (
        ok (record { order = o; status_code = code; cached = true }),
        record w { ticks = suc (suc w.ticks) },
      )
  unfolding create_order ◌>>=◌ attempt query scan_uuid KeyStore.get_idempotency_key
      KeyQueries.get_idempotency_key OrderStore.get_order OrderQueries.get_order
  create_order-Recorded o code w quiet ready there = ground arith

  -- A complete request with a key that is recorded for another request is refused, and nothing is
  -- written, if the server can be reached.
  pub create_order_conflict :
      (user : ℕ) (k : IdempotencyKey) (w : World)
      → env.fault w.ticks ≡ false
      → Admissible env p
      → env.scan p.user_id ≡ some user
      → find_key user (create_key env p) w.db.idempotency_keys ≡ some k
      → conflicts k p.method p.path (create_hash env p) ≡ true
      → create_order env p w ≡ (err idempotency_conflict, tick w)
  unfolding create_order ◌>>=◌ attempt query scan_uuid KeyStore.get_idempotency_key
      KeyQueries.get_idempotency_key
  create_order_conflict user k w quiet ready owner found differs = ground arith

  Created-Recorded :
      (o : Order) (before after : Db) → Created env p before o after → Recorded env p o 201 after
  Created-Recorded o before after c = record {
    key = c.key;
    owner = ground arith;
    found = rw c.stores (ground (arith, eq_iff c.key.key (create_key env p)));
    agrees = ground (
      arith,
      eq_iff c.key.method p.method,
      eq_iff c.key.path p.path,
      eq_iff c.key.request_hash (create_hash env p),
    );
    resource = ground (arith, env.scan-render o.id);
    stored = rw c.stores (ground arith);
    status = ground arith;
  }

  CreateOutcome-Recorded :
      (r : CreateOrderResult) (before after : Db)
      → CreateOutcome env p before r after
      → Recorded env p r.order r.status_code after
  CreateOutcome-Recorded r before after (inl (made, code, _)) =
      rw code (Created-Recorded r.order before after made)
  CreateOutcome-Recorded r before after (inr (same, there, _)) = rw same there

  create_order-Admissible :
      (r : CreateOrderResult) (w w' : World) → create_order env p w ≡ (ok r, w') → Admissible env p
  unfolding create_order
  create_order-Admissible r w w' e = ground arith

  -- The key of the request stands where it is searched for as it does in another database.
  abbrev pub KeyStays : Db → Db → Type 0
  KeyStays before after =
      (user : ℕ)
      → env.scan p.user_id ≡ some user
      → find_key user (create_key env p) after.idempotency_keys
        ≡ find_key user (create_key env p) before.idempotency_keys

  Recorded-stays :
      (o x : Order) (code : ℕ) (before after : Db)
      → Recorded env p o code before
      → KeyStays before after
      → find_order o.id after.orders ≡ some x
      → Recorded env p x code after
  Recorded-stays o x code before after r stays found =
      let same = find_order-id o.id after.orders x found in
      record {
        key = r.key;
        owner = r.owner;
        found = stays r.key.user_id r.owner ∙ r.found;
        agrees = r.agrees;
        resource = rw same r.resource;
        stored = subst (λ k. find_order k after.orders ≡ some x) (sym same) found;
        status = r.status;
      }

  -- A request that succeeded, sent again later, while the server can be reached and its key stands,
  -- gets the order as it is by then and the same status code, marked as cached, and writes nothing.
  pub create_order_later :
      (r : CreateOrderResult) (x : Order) (w w' v : World)
      → Quiet env v
      → create_order env p w ≡ (ok r, w')
      → KeyStays w'.db v.db
      → find_order r.order.id v.db.orders ≡ some x
      → create_order env p v ≡ (
        ok (record { order = x; status_code = r.status_code; cached = true }),
        record v { ticks = suc (suc v.ticks) },
      )
  create_order_later r x w w' v quiet e stays found =
      create_order-Recorded x r.status_code v quiet (create_order-Admissible r w w' e) (
        Recorded-stays r.order x r.status_code w'.db v.db
          (CreateOutcome-Recorded r w.db w'.db
            (subst (Ends (CreateOutcome env p w.db) (Atomic w.db (Created env p w.db))) e
              (create_order-Outcome env p w)).as_stated)
          stays found)

  -- A request that succeeded, sent again while the server can be reached, gets the same order and the
  -- same status code, marked as cached, and writes nothing.
  pub create_order_twice :
      (r : CreateOrderResult) (w w' : World)
      → Quiet env w'
      → create_order env p w ≡ (ok r, w')
      → create_order env p w'
        ≡ (ok (record r { cached = true }), record w' { ticks = suc (suc w'.ticks) })
  create_order_twice r w w' quiet e =
      create_order-Recorded r.order r.status_code w' quiet (create_order-Admissible r w w' e) (
        CreateOutcome-Recorded r w.db w'.db
          (subst (Ends (CreateOutcome env p w.db) (Atomic w.db (Created env p w.db))) e
            (create_order-Outcome env p w)).as_stated)

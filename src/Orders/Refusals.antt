-- ===== src/Orders/Refusals.antt =====
-- What the guards of the order service keep out.
use go_order_service.Prelude.{ℕ, ◌≡◌, refl, ◌⊎◌, inl, inr, true, some, arith}
use go_order_service.Schema.{Db, Order, IdempotencyKey}
use go_order_service.Runtime.{Result, ok, err, Env, World}
use go_order_service.Runtime.Ends.{Ends, Ends-always, Atomic, Atomic-always}
use go_order_service.Sqlc.Orders.{find_order}
use go_order_service.Sqlc.Idempotency.{find_key}
use go_order_service.Orders.Create.{CreateOrderParams, create_key, create_new}
use go_order_service.Orders.Create.Effects.{Created}
use go_order_service.Orders.Create.Outcome.{create_new-Outcome}
use go_order_service.Orders.Pay.{
  PayOrderParams, PayOrderResult, is_stranger, is_settled, pay_key, pay_order, pay_new,
}
use go_order_service.Orders.Pay.Effects.{Charged}
use go_order_service.Orders.Pay.Outcome.{PayOutcome, pay_order-Outcome, pay_new-Outcome}
use go_order_service.Orders.Cancel.{CancelOrderParams, cancel_order}
use go_order_service.Orders.Cancel.Effects.{Withdrawn}
use go_order_service.Orders.Cancel.Outcome.{cancel_order-Outcome}

abbrev pub IsErr : {A : Type 0} → Result A → Type 0
IsErr (ok a) = ⊥
IsErr (err e) = Unit

-- An action of which no outcome with a write can be, fails and has written nothing.
Ends-no_writes :
    {A B : Type 0} {Q : A → Db → Type 0} {P : B → Db → Type 0} {before : Db} (r : Result A × World)
    → Ends Q (Atomic before P) r
    → ((a : A) (db : Db) → Q a db → ⊥)
    → ((b : B) (db : Db) → P b db → ⊥)
    → IsErr r.0 × (r.1.db ≡ before)
Ends-no_writes (ok a, w) h never lost = absurd (never a w.db h.as_stated)
Ends-no_writes {before = before} (err e, w) h never lost =
    (tt, Atomic-always (λ db. db ≡ before) refl (λ b db q. absurd (lost b db q)) e w.db h.as_stated)

module _ (env : Env) (o : Order) (w : World) where
  -- A payment by someone who is neither the owner nor an admin, or of a settled order, changes
  -- nothing, whatever key it carries and whatever fails.
  pub pay_order_refused :
      (p : PayOrderParams)
      → env.scan p.order_id ≡ some o.id
      → find_order o.id w.db.orders ≡ some o
      → (is_stranger env p.role p.user_id o ≡ true) ⊎ (is_settled o.status ≡ true)
      → (pay_order env p w).1.db ≡ w.db
  pay_order_refused p scanned found refused =
      Ends-always (λ db. db ≡ w.db) _ (pay_order-Outcome env p w) outcome
        (Atomic-always (λ db. db ≡ w.db) refl λ r db made. absurd (impossible r db made))
    where
      impossible : (r : PayOrderResult) (db : Db) → Charged env p w.db r db → ⊥
      impossible r db c = ground arith

      outcome : (r : PayOrderResult) (db : Db) → PayOutcome env p w.db r db → db ≡ w.db
      outcome r db (inl made) = absurd (impossible r db made)
      outcome r db (inr (same, _, _)) = same

  -- A cancellation by someone who is neither the owner nor an admin, or of a settled order, fails
  -- and changes nothing.
  pub cancel_order_refused :
      (p : CancelOrderParams)
      → env.scan p.order_id ≡ some o.id
      → find_order o.id w.db.orders ≡ some o
      → (is_stranger env p.role p.user_id o ≡ true) ⊎ (is_settled o.status ≡ true)
      → IsErr (cancel_order env p w).0 × ((cancel_order env p w).1.db ≡ w.db)
  cancel_order_refused p scanned found refused =
      Ends-no_writes _ (cancel_order-Outcome env p w) impossible impossible
    where
      impossible : (r : Order) (db : Db) → Withdrawn env p w.db r db → ⊥
      impossible r db c = ground arith

-- Of two requests with one key that both find no key, the second comes to its transaction when the
-- key is there: it fails and makes no second order.
pub create_new_race :
    (env : Env) (p : CreateOrderParams) (user : ℕ) (k : IdempotencyKey) (w : World)
    → env.scan p.user_id ≡ some user
    → find_key user (create_key env p) w.db.idempotency_keys ≡ some k
    → IsErr (create_new env p w).0 × ((create_new env p w).1.db ≡ w.db)
create_new_race env p user k w scanned taken =
    Ends-no_writes _ (create_new-Outcome env p w.db w refl)
      (λ r db (made, _, _). impossible r.order db made) impossible
  where
    impossible : (o : Order) (db : Db) → Created env p w.db o db → ⊥
    impossible o db c = ground arith

-- A payment that found no key, but comes to its transaction when another request of the user has
-- stored the key, fails and makes no payment, of the same order or of another.
pub pay_new_race :
    (env : Env) (p : PayOrderParams) (user : ℕ) (k : IdempotencyKey) (w : World)
    → env.scan p.user_id ≡ some user
    → find_key user (pay_key env p) w.db.idempotency_keys ≡ some k
    → IsErr (pay_new env p w).0 × ((pay_new env p w).1.db ≡ w.db)
pay_new_race env p user k w scanned taken =
    Ends-no_writes _ (pay_new-Outcome env p w) impossible impossible
  where
    impossible : (r : PayOrderResult) (db : Db) → Charged env p w.db r db → ⊥
    impossible r db c = ground arith

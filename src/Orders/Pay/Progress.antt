-- ===== src/Orders/Pay/Progress.antt =====
-- `PayOrder` while nothing outside fails.
use mathlib.Core.Path.{subst}
use go_order_service.Prelude.{
  ℕ, String, ◌≡◌, refl, sym, List, inl, inr, true, false, ◌||◌, none, some, arith, ◌==◌, nat_eq,
  string_eq,
}
use go_order_service.Prelude.Int.{pos, leb_ℤ}
use go_order_service.Prelude.Lists.{contains}
use go_order_service.Prelude.Strings.{has_nul}
use go_order_service.Prelude.{◌||◌}
use go_order_service.Schema.{payment, Db, Order, PaymentStatus, succeeded, failed, IdempotencyKey}
use go_order_service.Runtime.{Result, ok, err, Env, World, query, scan_uuid, ◌>>=◌}
use go_order_service.Runtime.Ends.{
  Ends, Atomic, Either, Ends-bind, Ends-attempt, Ends-pure, Ends-if, Ends-count, Ends-or_raise,
}
use go_order_service.Runtime.Reachable.{Reachable, Unused, Never, new_uuid-fresh, with_tx-Never}
use go_order_service.Sqlc.Orders.{find_order}
use go_order_service.Sqlc.Outbox.{fits_aggregate}
use go_order_service.Sqlc.Idempotency as KeyQueries
use go_order_service.Sqlc.Idempotency.{find_key}
use go_order_service.Store.Idempotency as KeyStore
use go_order_service.Store.Progress.{
  create_payment-Never, update_order_status-Never, get_order_for_update-Never,
  create_outbox_event-Never, create_idempotency_key-Never,
}
use go_order_service.Orders.Pay.{
  PayOrderParams, PayOrderResult, mock_payment, payment_event_type, is_stranger, is_settled,
  pay_key, charge, pay_order_body, pay_new, answer_pay, pay_order,
}
use go_order_service.Orders.Pay.Effects.{Charged}
use go_order_service.Orders.Pay.Outcome.{PayOutcome, pay_order-Outcome}
use go_order_service.Orders.Pay.Replay.{Admissible}

-- The user of the request is registered, has not used its key, and may pay the order.
pub record Payable (env : Env) (p : PayOrderParams) (db : Db) : Type 0 where
  pub user : ℕ
  pub owner : env.scan p.user_id ≡ some user
  pub registered : contains (λ u. u.id == user) db.users ≡ true
  pub unused_key : find_key user (pay_key env p) db.idempotency_keys ≡ none
  pub plain_key : (has_nul (pay_key env p) || has_nul p.method || has_nul p.path) ≡ false
  pub order : Order
  pub scanned : env.scan p.order_id ≡ some order.id
  pub found : find_order order.id db.orders ≡ some order
  pub allowed : is_stranger env p.role p.user_id order ≡ false
  pub unsettled : is_settled order.status ≡ false
  pub priced : leb_ℤ order.amount_cents (pos 0) ≡ false

is_there :
    (os : List Order) (id : ℕ) (o : Order)
    → find_order id os ≡ some o
    → contains (λ x. x.id == id) os ≡ true
is_there os id o found = ground arith

module _ (env : Env) (good : Reachable env) (p : PayOrderParams) where
  rendered : (text : String) (u : ℕ) → text ≡ env.render u → env.scan text ≡ some u
  rendered text u given = rw given (env.scan-render u)

  fits : (s : PaymentStatus) → fits_aggregate payment (payment_event_type s) ≡ true
  fits succeeded = refl
  fits failed = refl

  charge-Never :
      (w : World)
      → Unused env w.db
      → (y : Payable env p w.db) → Ends (λ r _. r.cached ≡ false) Never (charge env p y.order w)
  unfolding charge
  charge-Never w unused y = Ends-bind _ _ w (new_uuid-fresh env w) λ t₁ w₁ ((i, given₁), same₁).
      Ends-bind _ _ w₁
        (create_payment-Never env good _ (env.fresh i) y.order.id w₁ (rendered t₁ _ given₁)
          (env.scan-render y.order.id) y.priced (rw same₁ (unused.payments i))
          (rw same₁ (is_there w.db.orders y.order.id y.order y.found)))
        λ made w₂ paid.
          Ends-bind _ _ w₂
            (update_order_status-Never env good y.order _ w₂ (rw (paid, same₁) y.found))
            λ o w₃ (_, updated).
              Ends-bind _ _ w₃ (new_uuid-fresh env w₃) λ t₂ w₄ ((j, given₂), same₄).
                Ends-bind _ _ w₄
                  (create_outbox_event-Never env good _ (env.fresh j) made.id y.order.id w₄
                    (rendered t₂ _ given₂) (env.scan-render made.id) (env.scan-render y.order.id)
                    (fits (mock_payment t₁).status)
                    (rw (same₄, updated, paid, same₁) (unused.events j)))
                  λ e w₅ announced.
                    Ends-bind _ _ w₅ (new_uuid-fresh env w₅) λ t₃ w₆ ((k, given₃), same₆).
                      Ends-bind _ _ w₆
                        (create_idempotency_key-Never env good _ (env.fresh k) y.user made.id w₆
                          (rendered t₃ _ given₃) y.owner (env.scan-render made.id) y.plain_key
                          (rw (same₆, announced, same₄, updated, paid, same₁) (unused.keys k))
                          (rw (same₆, announced, same₄, updated, paid, same₁) y.unused_key)
                          (rw (same₆, announced, same₄, updated, paid, same₁) y.registered))
                        λ _ u _. Ends-pure _ u refl

  pay_order_body-Never :
      (w : World)
      → Unused env w.db
      → Payable env p w.db
      → Ends (λ r _. r.cached ≡ false) Never (pay_order_body env p w)
  unfolding pay_order_body
  pay_order_body-Never w unused y =
      Ends-bind _ _ w
        (Ends-or_raise _ _ w
          (get_order_for_update-Never env good p.order_id y.order w y.scanned y.found)
          (λ _ _ never. never))
        λ o v (one, same).
          Ends-if (is_stranger env p.role p.user_id o) _ _ v
            (λ stranger. absurd (ground (arith, y.allowed)))
            λ _.
              Ends-if (is_settled o.status) _ _ v (λ settled. absurd (ground (arith, y.unsettled)))
                λ _.
                  subst (λ x. Ends (λ r _. r.cached ≡ false) Never (charge env p x v)) (sym one)
                    (charge-Never v (subst (Unused env) (sym same) unused) (moved v same))
    where
      moved : (v : World) → v.db ≡ w.db → Payable env p v.db
      moved v same = subst (Payable env p) (sym same) y

  pay_new-Never :
      (w : World)
      → Unused env w.db
      → Payable env p w.db
      → Ends (λ r _. r.cached ≡ false) Never (pay_new env p w)
  unfolding pay_new
  pay_new-Never w unused y =
      Ends-bind _ _ w
        (with_tx-Never env good _ w λ v same.
          pay_order_body-Never v (subst (Unused env) (sym same) unused)
            (subst (Payable env p) (sym same) y))
        λ r v fresh. Ends-count _ _ v λ u _. Ends-pure _ u fresh

  looks_up :
      (w : World)
      → Payable env p w.db
      → Ends
          (λ _ _. ⊥)
          (λ _ db. db ≡ w.db)
          (KeyStore.get_idempotency_key env p.user_id (pay_key env p) w)
  unfolding KeyStore.get_idempotency_key query scan_uuid ◌>>=◌ KeyQueries.get_idempotency_key
  looks_up w y = ground (arith, y.owner, y.unused_key)

  answer_pay-Never :
      (r : Result IdempotencyKey) (before : Db) (w : World)
      → Either (λ _ _. ⊥) (λ _ db. db ≡ before) r w.db
      → Unused env before
      → Payable env p before
      → Ends (λ r _. r.cached ≡ false) Never (answer_pay env p r w)
  unfolding answer_pay
  answer_pay-Never (ok k) before w h unused y = absurd h
  answer_pay-Never (err e) before w same unused y =
      pay_new-Never w (subst (Unused env) (sym same) unused) (subst (Payable env p) (sym same) y)

  pay_order-Never :
      (w : World)
      → Admissible env p
      → Unused env w.db
      → Payable env p w.db
      → Ends (λ r _. r.cached ≡ false) Never (pay_order env p w)
  unfolding pay_order
  pay_order-Never w ready unused y =
      Ends-if (p.user_id == "" || p.order_id == "") _ _ w
        (λ missing. absurd (ground (arith, ready.complete)))
        λ _.
          Ends-if (pay_key env p == "") _ _ w (λ missing. absurd (ground (arith, ready.keyed)))
            λ _.
              Ends-bind _ _ w (Ends-attempt _ w (looks_up w y))
                λ r v h. answer_pay-Never r w.db v h unused y

  made :
      (before : Db) (x : Result PayOrderResult × World)
      → Ends (λ r _. r.cached ≡ false) Never x
      → Ends (PayOutcome env p before) (Atomic before (Charged env p before)) x
      → (r : PayOrderResult) × (x.0 ≡ ok r) × Charged env p before r x.1.db
  made before (ok r, w) fresh h = (r, refl, new h.as_stated)
    where
      new : PayOutcome env p before r w.db → Charged env p before r w.db
      new (inl c) = c
      new (inr (_, _, cached)) = absurd (ground (arith, fresh.as_stated))
  made before (err e, w) never h = absurd never.as_stated

  -- The first request with a key for the payment of an order that the caller may pay and that is not
  -- settled makes one payment, with all that belongs to it, while nothing outside fails and
  -- `uuid.New` gives no id that is in use, if the key, the method and the path have no U+0000.
  pub pay_order-Payable :
      (w : World)
      → Admissible env p
      → Unused env w.db
      → Payable env p w.db
      → (r : PayOrderResult) × ((pay_order env p w).0 ≡ ok r)
        × Charged env p w.db r (pay_order env p w).1.db
  pay_order-Payable w ready unused y =
      made w.db (pay_order env p w) (pay_order-Never w ready unused y) (pay_order-Outcome env p w)

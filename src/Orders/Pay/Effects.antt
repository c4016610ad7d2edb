-- ===== src/Orders/Pay/Effects.antt =====
-- What the transaction of `PayOrder` writes.
use mathlib.Core.Path.{subst}
use go_order_service.Prelude.{◌≡◌, false, none, some, ◌∷◌, arith, ◌==◌, nat_eq}
use go_order_service.Prelude.Lists.{update}
use go_order_service.Schema.{Db, Order, OutboxEvent, payment, IdempotencyKey}
use go_order_service.Encoding.{encoded}
use go_order_service.Messages.{unmarshal_user_id}
use go_order_service.Messages.Decoding.{unmarshal-payment}
use go_order_service.Runtime.{Env, World}
use go_order_service.Runtime.Ends.{
  Ends, Any, Ends-bind, Ends-pure, Ends-raise, Ends-if, Ends-weaken, Ends-new_uuid,
}
use go_order_service.Runtime.Uuids.{render-ne-nil}
use go_order_service.Sqlc.Orders.{find_order}
use go_order_service.Sqlc.Payments.{find_payment}
use go_order_service.Sqlc.Idempotency.{find_key}
use go_order_service.Store.Writes.{
  create_payment-PaymentInserted, update_order_status-StatusUpdated,
  create_outbox_event-EventInserted, create_idempotency_key-KeyInserted,
}
use go_order_service.Store.Reads.{get_order_for_update-OrderFound}
use go_order_service.Orders.Pay.{
  PayOrderParams, PayOrderResult, next_order_status, payment_event_type, is_settled, is_stranger,
  pay_key, pay_hash, charge, pay_order_body,
}

-- One payment of an order that the caller may pay, the order's new status, the event that announces
-- the outcome and the key that answers a repeated request.
pub record Charged (env : Env) (p : PayOrderParams) (before : Db) (r : PayOrderResult) (after : Db)
    : Type 0 where
  pub old : Order
  pub event : OutboxEvent
  pub key : IdempotencyKey
  pub scanned : env.scan p.order_id ≡ some old.id
  pub found : find_order old.id before.orders ≡ some old
  pub allowed : is_stranger env p.role p.user_id old ≡ false
  pub unsettled : is_settled old.status ≡ false
  pub stores : after ≡ record before {
    orders =
        update
          (λ o. o.id == old.id)
          (λ o. record o {
            status = next_order_status r.payment.status;
            updated_at = r.order.updated_at;
          })
          before.orders;
    payments = r.payment ∷ before.payments;
    outbox_events = event ∷ before.outbox_events;
    idempotency_keys = key ∷ before.idempotency_keys;
  }
  pub updates :
      r.order
      ≡ record old { status = next_order_status r.payment.status; updated_at = r.order.updated_at }
  pub status_code : r.status_code ≡ 200
  pub uncached : r.cached ≡ false
  pub payment_order : r.payment.order_id ≡ old.id
  pub payment_amount : r.payment.amount_cents ≡ old.amount_cents
  pub payment_fresh : find_payment r.payment.id before.payments ≡ none
  pub event_aggregate : event.aggregate_type ≡ payment
  pub event_type : event.event_type ≡ payment_event_type r.payment.status
  pub event_of : event.aggregate_id ≡ r.payment.id
  pub event_partition : event.partition_key ≡ old.id
  pub event_unpublished : event.published_at ≡ none
  pub event_user : unmarshal_user_id (encoded event.payload) ≡ some (env.render old.user_id)
  pub key_user : env.scan p.user_id ≡ some key.user_id
  pub key_text : key.key ≡ pay_key env p
  pub key_method : key.method ≡ p.method
  pub key_path : key.path ≡ p.path
  pub key_hash : key.request_hash ≡ pay_hash env p
  pub key_status : key.status_code ≡ some 200
  pub key_type : key.resource_type ≡ some "payment"
  pub key_resource : key.resource_id ≡ some r.payment.id
  pub key_fresh : find_key key.user_id (pay_key env p) before.idempotency_keys ≡ none

module _ (env : Env) (p : PayOrderParams) where
  charge-Charged :
      (o : Order) (w : World)
      → env.scan p.order_id ≡ some o.id
      → find_order o.id w.db.orders ≡ some o
      → is_stranger env p.role p.user_id o ≡ false
      → is_settled o.status ≡ false
      → Ends (Charged env p w.db) Any (charge env p o w)
  unfolding charge
  charge-Charged o w scanned found allowed unsettled =
      Ends-bind _ _ _ (Ends-new_uuid env w) λ _ w₁ same₁.
        Ends-bind _ _ _ (create_payment-PaymentInserted env _ _) λ y w₂ paid.
          Ends-bind _ _ _
            (update_order_status-StatusUpdated env _ _ o _ (env.scan-render o.id) (ground arith))
            λ u w₃ updated. Ends-bind _ _ _ (Ends-new_uuid env _) λ _ w₄ same₂.
              Ends-bind _ _ _ (create_outbox_event-EventInserted env _ _) λ e w₅ announced.
                Ends-bind _ _ _ (Ends-new_uuid env _) λ _ w₆ same₃.
                  Ends-bind _ _ _
                    (create_idempotency_key-KeyInserted env _ _ (render-ne-nil env y.id))
                    λ k w₇ keyed. Ends-pure _ _ (record {
                      old = o;
                      event = e;
                      key = k;
                      scanned = scanned;
                      found = found;
                      allowed = allowed;
                      unsettled = unsettled;
                      stores = ground arith;
                      updates = ground arith;
                      status_code = ground arith;
                      uncached = ground arith;
                      payment_order = ground (arith, env.scan-render o.id);
                      payment_amount = paid.amount;
                      payment_fresh = ground arith;
                      event_aggregate = announced.aggregate_type;
                      event_type = ground arith;
                      event_of = ground (arith, env.scan-render y.id);
                      event_partition = ground (arith, env.scan-render o.id);
                      event_unpublished = announced.unpublished;
                      event_user = rw announced.payload (unmarshal-payment _);
                      key_user = keyed.user;
                      key_text = keyed.key;
                      key_method = keyed.method;
                      key_path = keyed.path;
                      key_hash = keyed.request_hash;
                      key_status = keyed.status_code;
                      key_type = keyed.resource_type;
                      key_resource = ground (arith, env.scan-render y.id);
                      key_fresh = ground arith;
                    })

  pub pay_order_body-Charged : (w : World) → Ends (Charged env p w.db) Any (pay_order_body env p w)
  unfolding pay_order_body
  pay_order_body-Charged w =
      Ends-bind _ _ _
        (Ends-weaken _ (get_order_for_update-OrderFound env _ _ w) (λ _ _ h. h) (λ _ _ _. tt))
        λ o v found.
          Ends-if (is_stranger env p.role p.user_id o) _ _ v (λ _. Ends-raise _ v tt)
            λ allowed.
              Ends-if (is_settled o.status) _ _ v (λ _. Ends-raise _ v tt)
                λ unsettled.
                  subst (λ db. Ends (Charged env p db) Any (charge env p o v)) found.unchanged
                    (charge-Charged o v found.scanned (rw found.unchanged found.found) allowed
                      unsettled)

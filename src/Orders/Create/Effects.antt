-- ===== src/Orders/Create/Effects.antt =====
-- What the transaction of `CreateOrder` writes.
use go_order_service.Prelude.{◌≡◌, false, none, some, ◌∷◌, arith}
use go_order_service.Prelude.Int.{pos, leb_ℤ}
use go_order_service.Schema.{
  Db, Order, pending_payment, OutboxEvent, order, order_created, IdempotencyKey,
}
use go_order_service.Encoding.{encoded}
use go_order_service.Messages.{unmarshal_user_id}
use go_order_service.Messages.Decoding.{unmarshal-created}
use go_order_service.Runtime.{Env, World}
use go_order_service.Runtime.Ends.{Ends, Any, Ends-bind, Ends-pure, Ends-new_uuid}
use go_order_service.Runtime.Uuids.{render-ne-nil}
use go_order_service.Sqlc.Orders.{find_order}
use go_order_service.Sqlc.Idempotency.{find_key}
use go_order_service.Store.Writes.{
  create_order-OrderInserted, create_outbox_event-EventInserted, create_idempotency_key-KeyInserted,
}
use go_order_service.Orders.Create.{
  CreateOrderParams, create_key, create_currency, create_hash, create_order_body,
}

-- One order, the event that announces it and the key that answers a repeated request.
pub record Created (env : Env) (p : CreateOrderParams) (before : Db) (o : Order) (after : Db)
    : Type 0 where
  pub event : OutboxEvent
  pub key : IdempotencyKey
  pub stores : after ≡ record before {
    orders = o ∷ before.orders;
    outbox_events = event ∷ before.outbox_events;
    idempotency_keys = key ∷ before.idempotency_keys;
  }
  pub owner : env.scan p.user_id ≡ some o.user_id
  pub status : o.status ≡ pending_payment
  pub amount : o.amount_cents ≡ p.amount_cents
  pub currency : o.currency ≡ create_currency env p
  pub positive : leb_ℤ o.amount_cents (pos 0) ≡ false
  pub fresh : find_order o.id before.orders ≡ none
  pub event_aggregate : event.aggregate_type ≡ order
  pub event_type : event.event_type ≡ order_created
  pub event_of : event.aggregate_id ≡ o.id
  pub event_partition : event.partition_key ≡ o.id
  pub event_unpublished : event.published_at ≡ none
  pub event_user : unmarshal_user_id (encoded event.payload) ≡ some p.user_id
  pub key_user : key.user_id ≡ o.user_id
  pub key_text : key.key ≡ create_key env p
  pub key_method : key.method ≡ p.method
  pub key_path : key.path ≡ p.path
  pub key_hash : key.request_hash ≡ create_hash env p
  pub key_status : key.status_code ≡ some 201
  pub key_type : key.resource_type ≡ some "order"
  pub key_resource : key.resource_id ≡ some o.id
  pub key_fresh : find_key o.user_id (create_key env p) before.idempotency_keys ≡ none

module _ (env : Env) (p : CreateOrderParams) where
  pub create_order_body-Created :
      (w : World) → Ends (Created env p w.db) Any (create_order_body env p w)
  unfolding create_order_body
  create_order_body-Created w = Ends-bind _ _ _ (Ends-new_uuid env w) λ _ _ same₁.
      Ends-bind _ _ _ (create_order-OrderInserted env _ _) λ o w₁ ordered.
        Ends-bind _ _ _ (Ends-new_uuid env _) λ _ _ same₂.
          Ends-bind _ _ _ (create_outbox_event-EventInserted env _ _) λ e w₂ announced.
            Ends-bind _ _ _ (Ends-new_uuid env _) λ _ _ same₃.
              Ends-bind _ _ _ (create_idempotency_key-KeyInserted env _ _ (render-ne-nil env o.id))
                λ k w₃ keyed. Ends-pure _ _ (record {
                  event = e;
                  key = k;
                  stores = ground arith;
                  owner = ordered.user;
                  status = ordered.status;
                  amount = ordered.amount;
                  currency = ordered.currency;
                  positive = ordered.positive;
                  fresh = ground arith;
                  event_aggregate = announced.aggregate_type;
                  event_type = announced.event_type;
                  event_of = ground (arith, env.scan-render o.id);
                  event_partition = ground (arith, env.scan-render o.id);
                  event_unpublished = announced.unpublished;
                  event_user = rw announced.payload (unmarshal-created _);
                  key_user = ground arith;
                  key_text = keyed.key;
                  key_method = keyed.method;
                  key_path = keyed.path;
                  key_hash = keyed.request_hash;
                  key_status = keyed.status_code;
                  key_type = keyed.resource_type;
                  key_resource = ground (arith, env.scan-render o.id);
                  key_fresh = ground arith;
                })

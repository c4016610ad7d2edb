-- ===== src/Orders/Cancel/Effects.antt =====
-- What the transaction of `CancelOrder` writes.
use mathlib.Core.Path.{subst}
use go_order_service.Prelude.{◌≡◌, false, none, some, ◌∷◌, arith, ◌==◌, nat_eq, ◌∙◌}
use go_order_service.Prelude.Lists.{update}
use go_order_service.Schema.{Db, Order, OutboxEvent, order, order_cancelled, cancelled}
use go_order_service.Encoding.{encoded}
use go_order_service.Messages.{unmarshal_user_id}
use go_order_service.Messages.Decoding.{unmarshal-cancelled}
use go_order_service.Runtime.{Env, World}
use go_order_service.Runtime.Ends.{
  Ends, Any, Ends-bind, Ends-pure, Ends-raise, Ends-if, Ends-weaken, Ends-new_uuid,
}
use go_order_service.Sqlc.Orders.{find_order}
use go_order_service.Store.Writes.{
  update_order_status-StatusUpdated, create_outbox_event-EventInserted,
}
use go_order_service.Store.Reads.{get_order_for_update-OrderFound}
use go_order_service.Orders.Pay.{is_settled, is_stranger}
use go_order_service.Orders.Cancel.{CancelOrderParams, withdraw, cancel_order_body}

-- The order's new status and the event that announces it.
pub record Withdrawn (env : Env) (p : CancelOrderParams) (before : Db) (o : Order) (after : Db)
    : Type 0 where
  pub old : Order
  pub event : OutboxEvent
  pub scanned : env.scan p.order_id ≡ some old.id
  pub found : find_order old.id before.orders ≡ some old
  pub allowed : is_stranger env p.role p.user_id old ≡ false
  pub unsettled : is_settled old.status ≡ false
  pub stores : after ≡ record before {
    orders =
        update
          (λ r. r.id == old.id)
          (λ r. record r { status = cancelled; updated_at = o.updated_at })
          before.orders;
    outbox_events = event ∷ before.outbox_events;
  }
  pub updates : o ≡ record old { status = cancelled; updated_at = o.updated_at }
  pub event_aggregate : event.aggregate_type ≡ order
  pub event_type : event.event_type ≡ order_cancelled
  pub event_of : event.aggregate_id ≡ old.id
  pub event_partition : event.partition_key ≡ old.id
  pub event_unpublished : event.published_at ≡ none
  pub event_user : unmarshal_user_id (encoded event.payload) ≡ some (env.render old.user_id)

module _ (env : Env) (p : CancelOrderParams) where
  withdraw-Withdrawn :
      (o : Order) (w : World)
      → env.scan p.order_id ≡ some o.id
      → find_order o.id w.db.orders ≡ some o
      → is_stranger env p.role p.user_id o ≡ false
      → is_settled o.status ≡ false
      → Ends (Withdrawn env p w.db) Any (withdraw env o w)
  unfolding withdraw
  withdraw-Withdrawn o w scanned found allowed unsettled =
      Ends-bind _ _ _ (update_order_status-StatusUpdated env _ _ o _ (env.scan-render o.id) found)
        λ u w₁ updated. Ends-bind _ _ _ (Ends-new_uuid env _) λ _ w₂ same.
          Ends-bind _ _ _ (create_outbox_event-EventInserted env _ _) λ e w₃ announced.
            Ends-pure _ _ (record {
              old = o;
              event = e;
              scanned = scanned;
              found = found;
              allowed = allowed;
              unsettled = unsettled;
              stores = ground arith;
              updates = updated.updates;
              event_aggregate = announced.aggregate_type;
              event_type = announced.event_type;
              event_of = ground (arith, env.scan-render u.id);
              event_partition = ground (arith, env.scan-render u.id);
              event_unpublished = announced.unpublished;
              event_user =
                  rw announced.payload (unmarshal-cancelled _ ∙ ground (arith, updated.updates));
            })

  pub cancel_order_body-Withdrawn :
      (w : World) → Ends (Withdrawn env p w.db) Any (cancel_order_body env p w)
  unfolding cancel_order_body
  cancel_order_body-Withdrawn w =
      Ends-bind _ _ _
        (Ends-weaken _ (get_order_for_update-OrderFound env _ _ w) (λ _ _ h. h) (λ _ _ _. tt))
        λ o v found.
          Ends-if (is_stranger env p.role p.user_id o) _ _ v (λ _. Ends-raise _ v tt)
            λ allowed.
              Ends-if (is_settled o.status) _ _ v (λ _. Ends-raise _ v tt)
                λ unsettled.
                  subst (λ db. Ends (Withdrawn env p db) Any (withdraw env o v)) found.unchanged
                    (withdraw-Withdrawn o v found.scanned (rw found.unchanged found.found) allowed
                      unsettled)

-- ===== src/Orders/Cancel.antt =====
-- internal/service/order_service.go: `CancelOrder`.
pub mod Effects
pub mod Outcome
pub mod Progress
use go_order_service.Prelude.{String, ◌||◌, if◌then◌else◌, ◌==◌, string_eq}
use go_order_service.Schema.{Order, order, order_cancelled, cancelled}
use go_order_service.Runtime.{
  Env, Action, pure, raise, ◌>>=◌, ◌>>◌, or_raise, new_uuid, with_tx, invalid_input,
  order_forbidden, order_invalid_status, order_not_found,
}
use go_order_service.Store.Orders as OrderStore
use go_order_service.Store.Outbox as OutboxStore
use go_order_service.Orders.Payloads.{order_cancelled_json}
use go_order_service.Orders.Pay.{is_stranger, is_settled}

pub record CancelOrderParams : Type 0 where
  pub user_id : String
  pub role : String
  pub order_id : String

module _ (env : Env) where
  -- The writes of the transaction, for an order that may be cancelled.
  pub withdraw : Order → Action Order
  withdraw o = do
    updated ← OrderStore.update_order_status env (env.render o.id) cancelled
    event_id ← new_uuid env
    OutboxStore.create_outbox_event env (record {
      id = event_id;
      aggregate_type = order;
      aggregate_id = env.render updated.id;
      partition_key = env.render updated.id;
      event_type = order_cancelled;
      payload = order_cancelled_json (record {
        order_id = env.render updated.id;
        user_id = env.render updated.user_id;
        status = updated.status;
      });
    })
    pure updated

  pub cancel_order_body : CancelOrderParams → Action Order
  unfolding withdraw
  cancel_order_body p = do
    o ← or_raise (OrderStore.get_order_for_update env p.order_id) order_not_found
    if is_stranger env p.role p.user_id o
        then raise order_forbidden
        else (if is_settled o.status then raise order_invalid_status else withdraw o)

  unfoldable pub cancel_order : CancelOrderParams → Action Order
  unfolding cancel_order_body
  cancel_order p =
      if p.user_id == "" || p.order_id == ""
      then raise invalid_input
      else with_tx env (cancel_order_body p)

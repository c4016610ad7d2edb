-- ===== src/Orders/Cancel/Progress.antt =====
-- `CancelOrder` while nothing outside fails.
use mathlib.Core.Path.{subst}
use go_order_service.Prelude.{◌≡◌, refl, sym, false, ◌||◌, some, arith, ◌==◌, nat_eq, string_eq}
use go_order_service.Schema.{Db, Order, cancelled}
use go_order_service.Runtime.{Env, World}
use go_order_service.Runtime.Ends.{Ends, Ends-bind, Ends-pure, Ends-if, Ends-or_raise}
use go_order_service.Runtime.Reachable.{
  Reachable, Unused, Never, new_uuid-fresh, with_tx-Never, as_stated-Never,
}
use go_order_service.Sqlc.Orders.{find_order}
use go_order_service.Store.Progress.{
  create_outbox_event-Never, update_order_status-Never, get_order_for_update-Never,
}
use go_order_service.Orders.Pay.{is_stranger, is_settled}
use go_order_service.Orders.Cancel.{CancelOrderParams, withdraw, cancel_order_body, cancel_order}
use go_order_service.Orders.Cancel.Effects.{Withdrawn}
use go_order_service.Orders.Cancel.Outcome.{cancel_order-Outcome}

-- The order of the request may be cancelled by the caller.
pub record Open (env : Env) (p : CancelOrderParams) (db : Db) : Type 0 where
  pub order : Order
  pub scanned : env.scan p.order_id ≡ some order.id
  pub found : find_order order.id db.orders ≡ some order
  pub allowed : is_stranger env p.role p.user_id order ≡ false
  pub unsettled : is_settled order.status ≡ false

module _ (env : Env) (good : Reachable env) where
  withdraw-Never :
      (o : Order) (w : World)
      → Unused env w.db
      → find_order o.id w.db.orders ≡ some o
      → Ends (λ _ _. Unit) Never (withdraw env o w)
  unfolding withdraw
  withdraw-Never o w unused found =
      Ends-bind _ _ w (update_order_status-Never env good o cancelled w found) λ x v (same, stores).
        Ends-bind _ _ v (new_uuid-fresh env v) λ text u ((n, given), same').
          Ends-bind _ _ u
            (create_outbox_event-Never env good _ (env.fresh n) x.id x.id u
              (rw given (env.scan-render (env.fresh n))) (env.scan-render x.id)
              (env.scan-render x.id) refl (rw (same', stores) (unused.events n)))
            λ _ t _. Ends-pure _ t tt

  cancel_order_body-Never :
      (p : CancelOrderParams) (w : World)
      → Unused env w.db
      → Open env p w.db
      → Ends (λ _ _. Unit) Never (cancel_order_body env p w)
  unfolding cancel_order_body
  cancel_order_body-Never p w unused open_ =
      Ends-bind _ _ w
        (Ends-or_raise _ _ w
          (get_order_for_update-Never env good p.order_id open_.order w open_.scanned open_.found)
          (λ _ _ never. never))
        λ o v (one, same).
          Ends-if (is_stranger env p.role p.user_id o) _ _ v
            (λ stranger. absurd (ground (arith, open_.allowed)))
            λ _.
              Ends-if (is_settled o.status) _ _ v
                (λ settled. absurd (ground (arith, open_.unsettled)))
                λ _.
                  withdraw-Never o v (subst (Unused env) (sym same) unused)
                    (rw (same, one) open_.found)

  -- An order that the caller may cancel and that is not settled is cancelled, with the event that
  -- announces it, while nothing outside fails and `uuid.New` gives no id that is in use.
  pub cancel_order-Open :
      (p : CancelOrderParams) (w : World)
      → (p.user_id == "" || p.order_id == "") ≡ false
      → Unused env w.db
      → Open env p w.db
      → Ends (Withdrawn env p w.db) Never (cancel_order env p w)
  unfolding cancel_order
  cancel_order-Open p w complete unused open_ =
      as_stated-Never (cancel_order env p w)
        (Ends-if (p.user_id == "" || p.order_id == "") _ _ w
          (λ missing. absurd (ground (arith, complete)))
          λ _. with_tx-Never env good _ w λ v same.
            cancel_order_body-Never p v (subst (Unused env) (sym same) unused)
              (subst (Open env p) (sym same) open_))
        (cancel_order-Outcome env p w)

-- ===== src/Orders/Read.antt =====
-- internal/service/order_service.go: `ListOrders` and `GetOrder`.
pub mod Views
use go_order_service.Prelude.{String, List, if◌then◌else◌, ◌==◌, string_eq}
use go_order_service.Schema.{Order}
use go_order_service.Runtime.{
  Env, Action, pure, raise, ◌>>=◌, or_raise, order_forbidden, order_not_found,
}
use go_order_service.Store.Orders as OrderStore
use go_order_service.Orders.Pay.{is_stranger}

pub record ListOrdersParams : Type 0 where
  pub user_id : String
  pub role : String

pub record GetOrderParams : Type 0 where
  pub user_id : String
  pub role : String
  pub order_id : String

module _ (env : Env) where
  unfoldable pub list_orders : ListOrdersParams → Action (List Order)
  list_orders p =
      if p.role == "admin"
      then OrderStore.list_orders env
      else OrderStore.list_orders_by_user env p.user_id

  unfoldable pub get_order : GetOrderParams → Action Order
  get_order p = do
    o ← or_raise (OrderStore.get_order env p.order_id) order_not_found
    if is_stranger env p.role p.user_id o then raise order_forbidden else pure o

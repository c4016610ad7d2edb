-- ===== src/Api/Refinement.antt =====
-- What the server promises of the orders, as a machine of its own, and that it implements that
-- machine.
use go_order_service.Prelude.{
  ℕ, ◌≡◌, refl, false, Option, none, some, List, arith, if◌then◌else◌, ◌==◌, nat_eq, String,
}
use go_order_service.Prelude.Int.{ℤ, pos, leb_ℤ}
use go_order_service.Schema.{Db, Order, OrderStatus, pending_payment, cancelled}
use go_order_service.Runtime.{Env}
use go_order_service.RedisClient.{Site}
use go_order_service.Sqlc.Orders.{find_order}
use go_order_service.Orders.Create.{CreateOrderParams}
use go_order_service.Orders.Create.Effects.{Created}
use go_order_service.Orders.Pay.{PayOrderParams, PayOrderResult, next_order_status}
use go_order_service.Orders.Pay.Effects.{Charged}
use go_order_service.Orders.Cancel.{CancelOrderParams}
use go_order_service.Orders.Cancel.Effects.{Withdrawn}
use go_order_service.Orders.Ledger.Writes.{set_status, find_order-set_status}
use go_order_service.Orders.Statuses.{Step, cancels, Step-pay}
use go_order_service.Api.{Request}
use go_order_service.Api.Server.{RouterConfig}
use go_order_service.Api.Invariants.{serve_all, serve_all-Keeps}

-- An order as its owner sees it. The shop forgets the tables, their order and the times.
pub record Item : Type 0 where
  pub owner : ℕ
  pub amount_cents : ℤ
  pub currency : String
  pub status : OrderStatus

abbrev pub Shop : Type 0
Shop = ℕ → Option Item

abbrev pub put : ℕ → Item → Shop → Shop
put id item shop k = if k == id then some item else shop k

abbrev pub Agree : Shop → Shop → Type 0
Agree a b = (k : ℕ) → a k ≡ b k

-- An order is placed under a new id, or one of the diagram's steps is taken.
pub data ShopStep (a b : Shop) : Type 0 where
  places :
      (id : ℕ) (item : Item)
      → a id ≡ none
      → item.status ≡ pending_payment
      → leb_ℤ item.amount_cents (pos 0) ≡ false
      → Agree b (put id item a)
      → ShopStep a b
  moves :
      (id : ℕ) (item : Item) (status : OrderStatus)
      → a id ≡ some item
      → Step item.status status
      → Agree b (put id (record item { status = status }) a)
      → ShopStep a b

pub data ShopRun (a : Shop) : Shop → Type 0 where
  rests : ShopRun a a
  goes_on : {b c : Shop} → ShopRun a b → ShopStep b c → ShopRun a c

-- The shop that a database stands for.
abbrev pub item : Order → Item
item o = record {
  owner = o.user_id;
  amount_cents = o.amount_cents;
  currency = o.currency;
  status = o.status;
}

abbrev pub item_of : Option Order → Option Item
item_of none = none
item_of (some o) = some (item o)

abbrev pub shop_of : Db → Shop
shop_of db id = item_of (find_order id db.orders)

module _ (env : Env) where
  Created-step :
      (p : CreateOrderParams) (o : Order) (before after : Db)
      → Created env p before o after
      → ShopStep (shop_of before) (shop_of after)
  Created-step p o before after c =
      places o.id (item o) (rw c.fresh refl) c.status c.positive (λ k. rw c.stores (ground arith))

  -- The update of the status of one order.
  set_status-step :
      (old : Order) (status : OrderStatus) (now : ℕ) (before after : Db)
      → find_order old.id before.orders ≡ some old
      → Step old.status status
      → after.orders ≡ set_status old.id status now before.orders
      → ShopStep (shop_of before) (shop_of after)
  set_status-step old status now before after found step written =
      moves old.id (item old) status (rw found refl) step
        (λ k. rw written (ground (arith, find_order-set_status k old.id status now before.orders)))

  Charged-step :
      (p : PayOrderParams) (r : PayOrderResult) (before after : Db)
      → Charged env p before r after
      → ShopStep (shop_of before) (shop_of after)
  Charged-step p r before after c =
      set_status-step c.old (next_order_status r.payment.status) r.order.updated_at before after
        c.found (Step-pay c.old.status r.payment.status c.unsettled) (rw c.stores)

  Withdrawn-step :
      (p : CancelOrderParams) (o : Order) (before after : Db)
      → Withdrawn env p before o after
      → ShopStep (shop_of before) (shop_of after)
  Withdrawn-step p o before after c =
      set_status-step c.old cancelled o.updated_at before after c.found (cancels c.unsettled)
        (rw c.stores)

-- Whatever requests the server gets, and whatever fails, what becomes of the orders is a run of the
-- shop: orders are placed under new ids, pending and with a positive amount, and then only their
-- status changes, along the steps of the diagram.
pub serve_all-ShopRun :
    {Store : Type 0} (server : RouterConfig Store) (rs : List Request) (x : Site Store)
    → ShopRun (shop_of x.world.db) (shop_of (serve_all server rs x).world.db)
serve_all-ShopRun server rs x =
    serve_all-Keeps {I = λ db. ShopRun (shop_of x.world.db) (shop_of db)} server
      (record {
        writes = record {
          created =
              λ p o before after c run. goes_on run (Created-step server.env p o before after c);
          charged =
              λ p r before after c run. goes_on run (Charged-step server.env p r before after c);
          withdrawn =
              λ p o before after c run. goes_on run (Withdrawn-step server.env p o before after c);
        };
        accounts = λ before after same run. rw same run;
      })
      rs x rests

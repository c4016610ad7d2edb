-- ===== src/Orders/Notices.antt =====
-- Whom the events of the outbox are for, for the writes of internal/service/order_service.go.
use go_order_service.Prelude.{
  ℕ, String, ◌≡◌, refl, some, none, List, ◌∷◌, arith, ◌==◌, nat_eq, if◌then◌else◌,
}
use go_order_service.Prelude.Lists.{All, All-map}
use go_order_service.Encoding.{encoded}
use go_order_service.Schema.{Db, Order, OrderStatus, cancelled, OutboxEvent}
use go_order_service.Runtime.{Env}
use go_order_service.Messages.{unmarshal_user_id}
use go_order_service.Sqlc.Orders.{find_order}
use go_order_service.Orders.Create.{CreateOrderParams}
use go_order_service.Orders.Create.Effects.{Created}
use go_order_service.Orders.Pay.{next_order_status}
use go_order_service.Orders.Ledger.Writes.{set_status, find_order-set_status}
use go_order_service.Orders.History.{Holds}

module _ (env : Env) where
  -- The event is of an order that is there, and the user in its payload is the owner of the order, by
  -- a text that the database reads as the owner's id.
  pub record Addressed (orders : List Order) (e : OutboxEvent) : Type 0 where
    pub order : Order
    pub user : String
    pub found : find_order e.partition_key orders ≡ some order
    pub told : unmarshal_user_id (encoded e.payload) ≡ some user
    pub owner : env.scan user ≡ some order.user_id

  abbrev pub IsAddressed : Db → Type 0
  IsAddressed db = All (Addressed db.orders) db.outbox_events

  -- Orders stay, with their owners.
  record Stays (before after : List Order) : Type 0 where
    stays :
        (id : ℕ) (o : Order)
        → find_order id before ≡ some o
        → (x : Order) × (find_order id after ≡ some x) × (x.user_id ≡ o.user_id)

  Addressed-Stays :
      (before after : List Order) (e : OutboxEvent)
      → Stays before after
      → Addressed before e
      → Addressed after e
  Addressed-Stays before after e s a =
      let (x, found, same) = s.stays e.partition_key a.order a.found in
      record { order = x; user = a.user; found = found; told = a.told; owner = rw same a.owner }

  placed : (o : Order) (os : List Order) → find_order o.id os ≡ none → Stays os (o ∷ os)
  placed o os fresh = record { stays = λ id x found. (x, ground arith, refl) }

  restatuses :
      (id : ℕ) (status : OrderStatus) (now : ℕ) (os : List Order)
      → Stays os (set_status id status now os)
  restatuses id status now os = record {
    stays = λ k o found. (
      if k == id then record o { status = status; updated_at = now } else o,
      ground (arith, find_order-set_status k id status now os),
      ground arith,
    );
  }

  Created-IsAddressed :
      (p : CreateOrderParams) (o : Order) (before after : Db)
      → Created env p before o after
      → IsAddressed before
      → IsAddressed after
  Created-IsAddressed p o before after c h = rw c.stores (
    record {
      order = o;
      user = p.user_id;
      found = rw c.event_partition (ground arith);
      told = c.event_user;
      owner = c.owner;
    },
    All-map before.outbox_events
        (λ e a. Addressed-Stays before.orders (o ∷ before.orders) e (placed o _ c.fresh) a) h,
  )

  -- A new event for the owner of an order whose status goes on.
  announces :
      (old : Order) (event : OutboxEvent) (status : OrderStatus) (now : ℕ) (before : Db)
      → find_order old.id before.orders ≡ some old
      → event.partition_key ≡ old.id
      → unmarshal_user_id (encoded event.payload) ≡ some (env.render old.user_id)
      → IsAddressed before
      → All (Addressed (set_status old.id status now before.orders)) (event ∷ before.outbox_events)
  announces old event status now before found partition told h =
      let stays = restatuses old.id status now before.orders in
      (
        Addressed-Stays before.orders _ event stays (record {
          order = old;
          user = env.render old.user_id;
          found = rw partition found;
          told = told;
          owner = env.scan-render old.user_id;
        }),
        All-map before.outbox_events (λ e a. Addressed-Stays before.orders _ e stays a) h,
      )

  pub IsAddressed-Holds : Holds env IsAddressed
  IsAddressed-Holds = record {
    created = Created-IsAddressed;
    charged = λ p r before after c h. rw c.stores (
        announces c.old c.event (next_order_status r.payment.status) r.order.updated_at before
          c.found c.event_partition c.event_user h);
    withdrawn = λ p o before after c h. rw c.stores (
        announces c.old c.event cancelled o.updated_at before c.found c.event_partition c.event_user
          h);
  }

-- ===== src/Orders/Statuses.antt =====
-- The life of an order: which statuses follow one another, over any calls.
use go_order_service.Prelude.{
  ℕ, ◌≡◌, refl, inl, inr, true, false, some, List, arith, ◌==◌, nat_eq, Bool-cases,
}
use go_order_service.Schema.{
  Db, Order, OrderStatus, paid, cancelled, PaymentStatus, succeeded, failed, order_status_eq,
}
use go_order_service.Runtime.{Env, World}
use go_order_service.Sqlc.Orders.{find_order}
use go_order_service.Orders.Create.{CreateOrderParams}
use go_order_service.Orders.Create.Effects.{Created}
use go_order_service.Orders.Pay.{PayOrderParams, PayOrderResult, next_order_status, is_settled}
use go_order_service.Orders.Pay.Effects.{Charged}
use go_order_service.Orders.Cancel.{CancelOrderParams}
use go_order_service.Orders.Cancel.Effects.{Withdrawn}
use go_order_service.Orders.Ledger.Writes.{set_status, find_order-set_status}
use go_order_service.Orders.History.{Call, run, run-keeps}

-- The steps of the diagram in README.md.
pub data Step : OrderStatus → OrderStatus → Type 0 where
  pays : {s : OrderStatus} → is_settled s ≡ false → Step s paid
  fails : {s : OrderStatus} → is_settled s ≡ false → Step s OrderStatus.payment_failed
  cancels : {s : OrderStatus} → is_settled s ≡ false → Step s cancelled

pub data Leads (s : OrderStatus) : OrderStatus → Type 0 where
  stays : Leads s s
  then : {t u : OrderStatus} → Leads s t → Step t u → Leads s u

pub Step-pay :
    (s : OrderStatus) (p : PaymentStatus) → is_settled s ≡ false → Step s (next_order_status p)
Step-pay s succeeded h = pays h
Step-pay s failed h = fails h

-- An order as it was, and as it is later.
pub record Continues (o o' : Order) : Type 0 where
  pub same_id : o'.id ≡ o.id
  pub same_owner : o'.user_id ≡ o.user_id
  pub same_amount : o'.amount_cents ≡ o.amount_cents
  pub same_currency : o'.currency ≡ o.currency
  pub leads : Leads o.status o'.status

-- The order is there, and goes on from how it was.
abbrev pub Lives : Order → Db → Type 0
Lives o db = (o' : Order) × (find_order o.id db.orders ≡ some o') × Continues o o'

restate-Continues :
    (o o' : Order) (status : OrderStatus) (now : ℕ)
    → Continues o o'
    → Step o'.status status
    → Continues o (record o' { status = status; updated_at = now })
restate-Continues o o' status now c s = record {
  same_id = c.same_id;
  same_owner = c.same_owner;
  same_amount = c.same_amount;
  same_currency = c.same_currency;
  leads = then c.leads s;
}

Created-Lives :
    (env : Env) (o : Order) (p : CreateOrderParams) (made : Order) (before after : Db)
    → Created env p before made after
    → Lives o before
    → Lives o after
Created-Lives env o p made before after c (o', found, goes) = (o', rw c.stores (ground arith), goes)

-- The update of one order's status, seen from any order.
set_status-Lives :
    (o old : Order) (status : OrderStatus) (now : ℕ) (before after : Db)
    → find_order old.id before.orders ≡ some old
    → Step old.status status
    → after.orders ≡ set_status old.id status now before.orders
    → Lives o before
    → Lives o after
set_status-Lives o old status now before after there step written (o', found, goes) =
    elim (Bool-cases (o.id == old.id)) [
      | inl same ↦
          let e : o' ≡ old = ground arith in
          (
            record o' { status = status; updated_at = now },
            rw written (ground (arith, find_order-set_status o.id old.id status now before.orders)),
            restate-Continues o o' status now goes (rw e step),
          )
      | inr other ↦ (
        o',
        rw written (ground (arith, find_order-set_status o.id old.id status now before.orders)),
        goes,
      )
    ]

Charged-Lives :
    (env : Env) (o : Order) (p : PayOrderParams) (r : PayOrderResult) (before after : Db)
    → Charged env p before r after
    → Lives o before
    → Lives o after
Charged-Lives env o p r before after c =
    set_status-Lives o c.old (next_order_status r.payment.status) r.order.updated_at before after
      c.found (Step-pay c.old.status r.payment.status c.unsettled) (rw c.stores)

Withdrawn-Lives :
    (env : Env) (o : Order) (p : CancelOrderParams) (made : Order) (before after : Db)
    → Withdrawn env p before made after
    → Lives o before
    → Lives o after
Withdrawn-Lives env o p made before after c =
    set_status-Lives o c.old cancelled made.updated_at before after c.found (cancels c.unsettled)
      (rw c.stores)

-- An order that is there never disappears and never changes its owner, amount or currency, and its
-- status only moves along the steps of the diagram, over any calls.
pub run-Lives :
    (env : Env) (cs : List Call) (w : World) (o : Order)
    → find_order o.id w.db.orders ≡ some o
    → Lives o (run env cs w).db
run-Lives env cs w o there =
    run-keeps env
      (record {
        created = Created-Lives env o;
        charged = Charged-Lives env o;
        withdrawn = Withdrawn-Lives env o;
      })
      cs w
      (
        o,
        there,
        record {
          same_id = refl;
          same_owner = refl;
          same_amount = refl;
          same_currency = refl;
          leads = stays;
        },
      )

-- No step leaves a settled status.
Leads-settled : (s : OrderStatus) {t : OrderStatus} → is_settled s ≡ true → Leads s t → t ≡ s
Leads-settled s h stays = refl
Leads-settled s h (then l step) = absurd (leave (Leads-settled s h l) step)
  where
    leave : {t u : OrderStatus} → t ≡ s → Step t u → ⊥
    leave e (pays g) = cc
    leave e (fails g) = cc
    leave e (cancels g) = cc

-- A paid or cancelled order keeps its status for ever, whatever is called.
pub run_settled :
    (env : Env) (cs : List Call) (w : World) (o : Order)
    → find_order o.id w.db.orders ≡ some o
    → is_settled o.status ≡ true
    → (o' : Order) × (find_order o.id (run env cs w).db.orders ≡ some o') × (o'.status ≡ o.status)
run_settled env cs w o there settled =
    let (o', found, goes) = run-Lives env cs w o there in
    (o', found, Leads-settled o.status settled goes.leads)

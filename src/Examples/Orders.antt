-- ===== src/Examples/Orders.antt =====
-- The properties of the order service at concrete requests.
use go_order_service.Prelude.{◌≡◌, refl, [], ◌∷◌, List}
use go_order_service.Prelude.Strings.{trim_space}
use go_order_service.Runtime.Ends.{Ends, Atomic}
use go_order_service.Store.Reads.{Same}
use go_order_service.Orders.Create.{CreateOrderParams, create_order, create_new}
use go_order_service.Orders.Create.Effects.{Created}
use go_order_service.Orders.Create.Outcome.{CreateOutcome, create_order-Outcome}
use go_order_service.Orders.Pay.{PayOrderParams, pay_order}
use go_order_service.Orders.Pay.Effects.{Charged}
use go_order_service.Orders.Pay.Outcome.{PayOutcome, pay_order-Outcome}
use go_order_service.Orders.Cancel.{cancel_order}
use go_order_service.Orders.Cancel.Effects.{Withdrawn}
use go_order_service.Orders.Cancel.Outcome.{cancel_order-Outcome}
use go_order_service.Orders.Read.{GetOrderParams, list_orders}
use go_order_service.Orders.Read.Views.{Listed, list_orders-Listed}
use go_order_service.Orders.Ledger.{IsLedger}
use go_order_service.Orders.History.{Call, create, pay, cancel}
use go_order_service.Orders.Refusals.{IsErr, create_new_race}
use go_order_service.Examples.{
  render, scan, env, declining, lossy, start, customer, create_request, pay_request, cancel_request,
}
use go_order_service.Examples.Worlds.{first_key, after_first, after_payment}

-- The same request with another path, and requests by someone else.
abbrev pub moved_request : CreateOrderParams
moved_request = record create_request { path = "/api/v2/orders" }

abbrev pub other_key_request : PayOrderParams
other_key_request = record pay_request { idempotency_key = "first" }

abbrev pub stranger_request : PayOrderParams
stranger_request = record pay_request { user_id = "1111" }

abbrev pub get_request : GetOrderParams
get_request = record { user_id = customer; role = "customer"; order_id = "111" }

abbrev pub calls : List Call
calls =
    create create_request
    ∷ pay stranger_request
    ∷ pay pay_request
    ∷ cancel cancel_request
    ∷ pay pay_request
    ∷ []

abbrev pub start-IsLedger : IsLedger start.db
start-IsLedger = record {
  charged = λ id. refl;
  created_events = λ id. refl;
  success_events = λ id. refl;
  failure_events = λ id. refl;
  cancel_events = λ id. refl;
  positive = λ id. refl;
}

create_order-Outcome_example :
    Ends
      (CreateOutcome lossy create_request start.db)
      (Atomic start.db (Created lossy create_request start.db))
      (create_order lossy create_request start)
create_order-Outcome_example = create_order-Outcome lossy create_request start

pay_order-Outcome_example :
    Ends
      (PayOutcome declining pay_request after_first.db)
      (Atomic after_first.db (Charged declining pay_request after_first.db))
      (pay_order declining pay_request after_first)
pay_order-Outcome_example = pay_order-Outcome declining pay_request after_first

cancel_order-Outcome_example :
    Ends
      (Withdrawn env cancel_request after_first.db)
      (Atomic after_first.db (Withdrawn env cancel_request after_first.db))
      (cancel_order env cancel_request after_first)
cancel_order-Outcome_example = cancel_order-Outcome env cancel_request after_first

create_new_race_example :
    IsErr (create_new env create_request after_first).0
    × ((create_new env create_request after_first).1.db ≡ after_first.db)
unfolding scan render trim_space
create_new_race_example = create_new_race env create_request 7 first_key after_first refl refl

list_orders-Listed_example :
    Ends
      (Listed env (record { user_id = customer; role = "customer" }) after_payment.db)
      (Same after_payment.db)
      (list_orders env (record { user_id = customer; role = "customer" }) after_payment)
list_orders-Listed_example =
    list_orders-Listed env (record { user_id = customer; role = "customer" }) after_payment

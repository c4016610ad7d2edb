-- ===== src/Examples/Progress.antt =====
-- The order service at concrete requests, while nothing outside fails.
use go_order_service.Prelude.{◌≡◌, refl}
use go_order_service.Prelude.Strings.{trim_space, map_chars, mentions}
use go_order_service.Runtime.{ok}
use go_order_service.Orders.Create.{CreateOrderResult, create_order}
use go_order_service.Orders.Create.Effects.{Created}
use go_order_service.Orders.Pay.Progress.{pay_order-Payable}
use go_order_service.Orders.Create.Progress.{create_order-First}
use go_order_service.Orders.Pay.{PayOrderResult, pay_order}
use go_order_service.Orders.Pay.Effects.{Charged}
use go_order_service.Examples.{
  start-Unused, env-Reachable, render, scan, env, start, create_request, pay_request,
}
use go_order_service.Examples.Worlds.{
  later, later-Reachable, after_first-Unused, first_order, after_first,
}

create_order-First_example :
    (r : CreateOrderResult) × ((create_order env create_request start).0 ≡ ok r)
    × (r.status_code ≡ 201)
    × Created env create_request start.db r.order (create_order env create_request start).1.db
unfolding scan trim_space map_chars mentions
create_order-First_example =
    create_order-First env env-Reachable create_request (record { keyed = refl; complete = refl })
      start start-Unused
      (record {
        user = 7;
        owner = refl;
        registered = refl;
        unused_key = refl;
        plain_order = refl;
        plain_key = refl;
      })

pay_order-Payable_example :
    (r : PayOrderResult) × ((pay_order later pay_request after_first).0 ≡ ok r)
    × Charged later pay_request after_first.db r (pay_order later pay_request after_first).1.db
unfolding scan render trim_space mentions
pay_order-Payable_example =
    pay_order-Payable later later-Reachable pay_request after_first
      (record { complete = refl; keyed = refl }) after_first-Unused
      (record {
        user = 7;
        owner = refl;
        registered = refl;
        unused_key = refl;
        plain_key = refl;
        order = first_order;
        scanned = refl;
        found = refl;
        allowed = refl;
        unsettled = refl;
        priced = refl;
      })

-- ===== src/Examples/Api.antt =====
-- The properties of the HTTP API and of the whole system at concrete requests.
use go_order_service.Prelude.{
  ℕ, suc, String, ◌≡◌, refl, ◌⊎◌, inl, inr, ◌≤◌, ◌<◌, ◌+◌, true, false, Option, none, some, List,
  [], ◌∷◌, arith, ◌==◌, string_eq, nat_eq,
}
use go_order_service.Encoding.{malformed}
use go_order_service.Runtime.{World}
use go_order_service.Examples.Auth.{verify}
use go_order_service.RedisClient.{Site}
use go_order_service.Messages.{same_name}
use go_order_service.Orders.Ledger.{IsLedger}
use go_order_service.Publisher.{Config}
use go_order_service.System.Notices.{Noticed, run_system-Noticed}
use go_order_service.Orders.Notices.{Addressed}
use go_order_service.Messages.Decoding.{unmarshal-created}
use go_order_service.Prelude.Lists.{All}
use go_order_service.System.{request, batch, record_value, run_system, run_system-IsLedger}
use go_order_service.Runtime.{World}
use go_order_service.Examples.Auth.{verify}
use go_order_service.Schema.{cancelled}
use go_order_service.Api.Responses.{new_order_response}
use go_order_service.Api.{Request, Response, write_header, write_json}
use go_order_service.Api.Requests.{decode_create_order, decode_fields, create_order_field}
use go_order_service.Api.Locks.{under_lock}
use go_order_service.Api.Orders.{handle_create_order, handle_get_order}
use go_order_service.Api.Router.{serve}
use go_order_service.Api.Invariants.{serve_all}
use go_order_service.Api.Refinement.{ShopRun, shop_of, serve_all-ShopRun}
use go_order_service.Api.ReadOnly.{serve_get-same}
use go_order_service.Api.Exclusion.{Done, under_lock-Done}
use go_order_service.Api.Orders.Answers.{
  handle_create_order_twice, Discreet, handle_get_order-Discreet,
}
use go_order_service.Examples.{scan, env, start, customer}
use go_order_service.Examples.Worlds.{
  after_first, first_order, first_event, first_answer, first_answer_lem,
}
use go_order_service.Examples.Orders.{start-IsLedger}
use go_order_service.Examples.Server.{
  Store, server, site, ada_claims, post_order, post_order_as_ada, get_orders,
}

abbrev publisher : Config
publisher = record { topic = "order.events.v1"; batch_size = go_order_service.Prelude.Int.ℤ.pos 10 }

run_system-IsLedger_example :
    IsLedger
      (run_system server publisher
        (request post_order_as_ada ∷ batch ∷ record_value malformed ∷ request get_orders ∷ [])
        (site start)).world.db
run_system-IsLedger_example =
    run_system-IsLedger server publisher
      (request post_order_as_ada ∷ batch ∷ record_value malformed ∷ request get_orders ∷ [])
      (site start) start-IsLedger

first_event-Addressed : Addressed env after_first.db.orders first_event
unfolding scan
first_event-Addressed = record {
  order = first_order;
  user = customer;
  found = refl;
  told = unmarshal-created _;
  owner = refl;
}

run_system-Noticed_example :
    All
      (Noticed env
        (run_system server publisher
          (request post_order_as_ada ∷ batch ∷ record_value malformed ∷ [])
          (site after_first)).world.db)
      (run_system server publisher
        (request post_order_as_ada ∷ batch ∷ record_value malformed ∷ [])
        (site after_first)).world.db.outbox_events
run_system-Noticed_example =
    run_system-Noticed server publisher
      (request post_order_as_ada ∷ batch ∷ record_value malformed ∷ []) (site after_first)
      (first_event-Addressed, tt)

serve_all-ShopRun_example :
    ShopRun
      (shop_of start.db)
      (shop_of (serve_all server (post_order_as_ada ∷ get_orders ∷ []) (site start)).world.db)
serve_all-ShopRun_example =
    serve_all-ShopRun server (post_order_as_ada ∷ get_orders ∷ []) (site start)

serve_get-same_example : (serve server get_orders (site after_first)).1.world.db ≡ after_first.db
serve_get-same_example = serve_get-same server get_orders (site after_first) refl

-- The token of a login, after it has expired.
abbrev late : World
late = record start { ticks = 3000000 }

-- Another request has the lock of the order.
abbrev locked_site : Site Store
locked_site = record {
  world = after_first;
  store = (("lock:order:111", "other", 1000) ∷ [], (site start).store.1);
}

abbrev pay_first : Request
pay_first = record post_order {
  path = "/orders/111/pay";
  headers = ("Idempotency-Key", "second") ∷ [];
  claims = some ada_claims;
  id = "111";
}

-- Work that takes no time.
abbrev idle : World → Response × World
idle w = (write_header 200, w)

under_lock-Done_example :
    Done server "111" idle (site start) 10000000 (under_lock server "111" idle (site start))
under_lock-Done_example = under_lock-Done server "111" idle (site start) 10000000 (record {
  managed = refl;
  free = refl;
  acquires = refl;
  releases = refl;
  later = omega arith;
  in_time = omega arith;
})

abbrev known_order : Request
known_order = record post_order { path = "/api/v1/orders"; claims = some ada_claims }

-- The order is cancelled before the request is sent again.
abbrev cancelled_since : World
cancelled_since = record after_first {
  db = record after_first.db { orders = record first_order { status = cancelled } ∷ [] };
}

handle_create_order_twice_example :
    (handle_create_order env known_order start
      ≡ (write_json 201 (new_order_response env first_order), after_first))
    × ((handle_create_order env known_order cancelled_since).0
        ≡ write_json 201 (new_order_response env (record first_order { status = cancelled })))
    × ((handle_create_order env known_order cancelled_since).1.db ≡ cancelled_since.db)
unfolding decode_create_order decode_fields create_order_field same_name
handle_create_order_twice_example =
    handle_create_order_twice env known_order ada_claims
      (record {
        amount_cents = go_order_service.Prelude.Int.ℤ.pos 1250;
        currency = "EUR";
        description = "books";
      })
      first_answer (record first_order { status = cancelled }) start after_first cancelled_since
      (record { first = refl; second = refl }) refl refl first_answer_lem (λ user scanned. refl)
      refl

abbrev show_first : Request
show_first = record pay_first { method = "GET"; path = "/orders/111" }

handle_get_order-Discreet_example :
    Discreet env show_first ada_claims
      (record { user_id = customer; role = "customer"; order_id = "111" })
      after_first.ticks
      after_first.db
      (handle_get_order env show_first after_first)
handle_get_order-Discreet_example =
    handle_get_order-Discreet env show_first ada_claims after_first refl refl

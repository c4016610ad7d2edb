-- ===== src/Examples/Worlds.antt =====
-- An order, its payment, and the databases that they leave, as the code makes them.
use go_order_service.Prelude.{◌≡◌, refl, false, none, some, [], ◌∷◌}
use go_order_service.Prelude.Int.{pos}
use go_order_service.Prelude.Strings.{mentions, trim_space, map_chars, has_suffix}
use go_order_service.Schema.{
  Order, pending_payment, paid, Payment, succeeded, IdempotencyKey, OutboxEvent, order, payment,
  order_created, payment_succeeded,
}
use go_order_service.Prelude.{ℕ, ◌+◌, arith, false, nat_eq}
use go_order_service.Runtime.Reachable.{Reachable, Unused}
use go_order_service.Runtime.{
  Env, World, ok, ◌>>=◌, attempt, with_tx, new_uuid, query, scan_uuid, or_raise, orders_created,
  payments,
}
use go_order_service.Sqlc.Orders as OrderQueries
use go_order_service.Sqlc.Orders.{find_order}
use go_order_service.Sqlc.Outbox as OutboxQueries
use go_order_service.Sqlc.Payments as PaymentQueries
use go_order_service.Sqlc.Idempotency as KeyQueries
use go_order_service.Store.Orders as OrderStore
use go_order_service.Store.Outbox as OutboxStore
use go_order_service.Store.Idempotency as KeyStore
use go_order_service.Orders.Payloads.{
  order_created_json, order_row_json, payment_json, payment_row_json, hash_request_body,
}
use go_order_service.Orders.Create.{CreateOrderResult, create_order}
use go_order_service.Orders.Pay.{PayOrderResult, pay_order, mock_payment}
use go_order_service.Examples.{render, scan, env, start, customer, create_request, pay_request}

abbrev pub first_order : Order
first_order = record {
  id = 2;
  user_id = 7;
  status = pending_payment;
  amount_cents = pos 1250;
  currency = "EUR";
  description = some "books";
  created_at = 1;
  updated_at = 1;
}

abbrev pub first_event : OutboxEvent
first_event = record {
  id = 4;
  aggregate_type = order;
  aggregate_id = 2;
  event_type = order_created;
  payload = order_created_json (record {
    order_id = "111";
    user_id = customer;
    status = pending_payment;
    amount_cents = pos 1250;
    currency = "EUR";
    description = "books";
  });
  published_at = none;
  attempt = 0;
  last_error = none;
  created_at = 1;
  partition_key = 2;
}

abbrev pub first_key : IdempotencyKey
first_key = record {
  id = 6;
  user_id = 7;
  key = "first";
  method = "POST";
  path = "/api/v1/orders";
  request_hash = "digest";
  response_body = order_row_json env first_order;
  status_code = some 201;
  resource_type = some "order";
  resource_id = some 2;
  created_at = 1;
}

abbrev pub first_answer : CreateOrderResult
first_answer = record { order = first_order; status_code = 201; cached = false }

abbrev pub after_first : World
after_first = record {
  db = record start.db {
    orders = first_order ∷ [];
    outbox_events = first_event ∷ [];
    idempotency_keys = first_key ∷ [];
  };
  tx = none;
  ticks = 9;
  metrics = orders_created ∷ [];
  published = [];
}

pub first_answer_lem : create_order env create_request start ≡ (ok first_answer, after_first)
unfolding mentions create_order ◌>>=◌ attempt with_tx new_uuid query scan_uuid trim_space map_chars
    render scan hash_request_body order_created_json order_row_json KeyStore.get_idempotency_key
    KeyQueries.get_idempotency_key OrderStore.create_order OrderQueries.create_order
    OutboxStore.create_outbox_event OutboxQueries.create_outbox_event
    KeyStore.create_idempotency_key KeyQueries.create_idempotency_key
first_answer_lem = refl

abbrev pub paid_order : Order
paid_order = record first_order { status = paid; updated_at = 10 }

abbrev pub second_payment : Payment
second_payment = record {
  id = 12;
  order_id = 2;
  status = succeeded;
  amount_cents = pos 1250;
  provider = "mock";
  provider_ref = some "mock_1111111111111";
  failure_reason = none;
  created_at = 10;
  updated_at = 10;
}

abbrev pub second_event : OutboxEvent
second_event = record {
  id = 15;
  aggregate_type = payment;
  aggregate_id = 12;
  event_type = payment_succeeded;
  payload = payment_json (record {
    payment_id = "1111111111111";
    order_id = "111";
    user_id = customer;
    status = succeeded;
    amount_cents = pos 1250;
    currency = "EUR";
    provider = "mock";
    provider_ref = "mock_1111111111111";
    failure_reason = "";
  });
  published_at = none;
  attempt = 0;
  last_error = none;
  created_at = 10;
  partition_key = 2;
}

abbrev pub second_key : IdempotencyKey
second_key = record {
  id = 17;
  user_id = 7;
  key = "second";
  method = "POST";
  path = "/api/v1/orders/111/pay";
  request_hash = "digest";
  response_body = payment_row_json env second_payment;
  status_code = some 200;
  resource_type = some "payment";
  resource_id = some 12;
  created_at = 10;
}

abbrev pub second_answer : PayOrderResult
second_answer = record {
  order = paid_order;
  payment = second_payment;
  status_code = 200;
  cached = false;
}

abbrev pub after_payment : World
after_payment = record {
  db = record after_first.db {
    orders = paid_order ∷ [];
    payments = second_payment ∷ [];
    outbox_events = second_event ∷ first_event ∷ [];
    idempotency_keys = second_key ∷ first_key ∷ [];
  };
  tx = none;
  ticks = 20;
  metrics = payments succeeded ∷ orders_created ∷ [];
  published = [];
}

pub second_answer_lem : pay_order env pay_request after_first ≡ (ok second_answer, after_payment)
unfolding mentions pay_order ◌>>=◌ attempt or_raise with_tx new_uuid query scan_uuid trim_space
    has_suffix mock_payment render scan hash_request_body order_created_json order_row_json
    payment_json payment_row_json KeyStore.get_idempotency_key KeyQueries.get_idempotency_key
    OrderStore.get_order_for_update OrderQueries.get_order_for_update OrderStore.create_payment
    PaymentQueries.create_payment OrderStore.update_order_status OrderQueries.update_order_status
    OutboxStore.create_outbox_event OutboxQueries.create_outbox_event
    KeyStore.create_idempotency_key KeyQueries.create_idempotency_key
second_answer_lem = refl

-- The libraries when `uuid.New` gives ids from 100 on.
abbrev pub shifted : ℕ → ℕ
shifted n = n + 100

abbrev pub later : Env
later = record env { fresh = shifted }

pub after_first-Unused : Unused later after_first.db
after_first-Unused = record {
  orders = λ n. ground arith;
  payments = λ n. refl;
  events = λ n. ground arith;
  keys = λ n. ground arith;
  deliveries = λ n. refl;
}

pub later-Reachable : Reachable later
later-Reachable = record { answers = λ n. refl; commits = λ n. refl }

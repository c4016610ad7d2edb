-- ===== src/Api/Orders.antt =====
-- internal/api/order_handler.go: the handlers of the orders. Those of a payment and of a
-- cancellation are here as they go on under the order's lock.
pub mod Answers
use go_order_service.Prelude.{ℕ, String, if◌then◌else◌, ◌==◌, string_eq}
use go_order_service.Encoding.{arr}
use go_order_service.Runtime.{
  Error, invalid_input, idempotency_key_required, idempotency_conflict, order_forbidden,
  order_invalid_status, order_not_found, Env, World,
}
use go_order_service.Auth.{Claims}
use go_order_service.Orders.Create.{CreateOrderParams, create_order}
use go_order_service.Orders.Pay.{PayOrderParams, pay_order}
use go_order_service.Orders.Cancel.{CancelOrderParams, cancel_order}
use go_order_service.Orders.Read.{ListOrdersParams, GetOrderParams, list_orders, get_order}
use go_order_service.Api.{
  Request, Response, Handler, get_header, write_json, write_json_error, respond, with_claims,
  with_body,
}
use go_order_service.Api.Requests.{CreateOrderRequest, decode_create_order}
use go_order_service.Api.Responses.{
  json_items, new_order_response, pay_order_response, order_responses,
}

-- The error branches of the handlers.
abbrev pub create_order_error : Error → Response
create_order_error idempotency_key_required = write_json_error 400 "idempotency key is required"
create_order_error invalid_input = write_json_error 400 "invalid order input"
create_order_error idempotency_conflict =
    write_json_error 409 "idempotency key reused with different request"
create_order_error _ = write_json_error 500 "failed to create order"

abbrev pub get_order_error : Error → Response
get_order_error order_not_found = write_json_error 404 "order not found"
get_order_error order_forbidden = write_json_error 403 "order forbidden"
get_order_error _ = write_json_error 500 "failed to get order"

abbrev pub pay_order_error : Error → Response
pay_order_error invalid_input = write_json_error 400 "invalid payment input"
pay_order_error idempotency_key_required = write_json_error 400 "idempotency key is required"
pay_order_error idempotency_conflict =
    write_json_error 409 "idempotency key reused with different request"
pay_order_error order_not_found = write_json_error 404 "order not found"
pay_order_error order_forbidden = write_json_error 403 "order forbidden"
pay_order_error order_invalid_status = write_json_error 409 "order cannot be paid in current status"
pay_order_error _ = write_json_error 500 "failed to pay order"

abbrev pub cancel_order_error : Error → Response
cancel_order_error invalid_input = write_json_error 400 "invalid cancel input"
cancel_order_error order_not_found = write_json_error 404 "order not found"
cancel_order_error order_forbidden = write_json_error 403 "order forbidden"
cancel_order_error order_invalid_status =
    write_json_error 409 "order cannot be cancelled in current status"
cancel_order_error _ = write_json_error 500 "failed to cancel order"

-- The parameters that the handlers give to the service.
abbrev pub create_params : Request → Claims → CreateOrderRequest → CreateOrderParams
create_params r c body = record {
  user_id = c.user_id;
  idempotency_key = get_header "Idempotency-Key" r.headers;
  method = r.method;
  path = r.path;
  amount_cents = body.amount_cents;
  currency = body.currency;
  description = body.description;
}

abbrev pub pay_params : Request → Claims → PayOrderParams
pay_params r c = record {
  user_id = c.user_id;
  role = c.role;
  order_id = r.id;
  idempotency_key = get_header "Idempotency-Key" r.headers;
  method = r.method;
  path = r.path;
}

abbrev pub cancel_params : Request → Claims → CancelOrderParams
cancel_params r c = record { user_id = c.user_id; role = c.role; order_id = r.id }

module _ (env : Env) where
  unfoldable pub handle_create_order : Handler
  handle_create_order r = with_claims r.claims λ c. with_body (decode_create_order r.body) λ body w.
      respond (λ result. write_json result.status_code (new_order_response env result.order))
        create_order_error (create_order env (create_params r c body) w)

  unfoldable pub handle_list_orders : Handler
  handle_list_orders r = with_claims r.claims λ c w.
      respond (λ os. write_json 200 (arr (json_items (order_responses env os))))
        (λ _. write_json_error 500 "failed to list orders")
        (list_orders env (record { user_id = c.user_id; role = c.role }) w)

  unfoldable pub handle_get_order : Handler
  handle_get_order r = with_claims r.claims λ c w.
      if r.id == ""
      then (write_json_error 400 "order id is required", w)
      else respond (λ o. write_json 200 (new_order_response env o)) get_order_error
          (get_order env (record { user_id = c.user_id; role = c.role; order_id = r.id }) w)

  -- What `handlePayOrder` and `handleCancelOrder` do while they have the lock.
  unfoldable pub pay_locked : Request → Claims → World → Response × World
  pay_locked r c w =
      respond
        (λ result.
          write_json result.status_code (pay_order_response env result.order result.payment))
        pay_order_error (pay_order env (pay_params r c) w)

  unfoldable pub cancel_locked : Request → Claims → World → Response × World
  cancel_locked r c w =
      respond (λ o. write_json 200 (new_order_response env o)) cancel_order_error
        (cancel_order env (cancel_params r c) w)

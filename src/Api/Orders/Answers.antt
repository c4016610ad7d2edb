-- ===== src/Api/Orders/Answers.antt =====
-- What the handlers of the orders answer.
use go_order_service.Prelude.{ℕ, ◌≡◌, refl, ◌⊎◌, inl, inr, false, some, ◌==◌, string_eq}
use go_order_service.Schema.{Db, Order}
use go_order_service.Runtime.{Error, order_not_found, order_forbidden, Result, ok, err, Env, World}
use go_order_service.Runtime.Ends.{Ends}
use go_order_service.Auth.{Claims}
use go_order_service.Orders.Create.{CreateOrderResult, create_order}
use go_order_service.Orders.Create.Replay.{create_order_later, KeyStays, Quiet}
use go_order_service.Sqlc.Orders.{find_order}
use go_order_service.Orders.Pay.{PayOrderResult, pay_order}
use go_order_service.Orders.Pay.Replay.{pay_order_twice, Quiet as PayQuiet}
use go_order_service.Orders.Read.{GetOrderParams}
use go_order_service.Orders.Read.Views.{Foreign, Shown, Hidden, get_order-Shown}
use go_order_service.Api.{
  Request, Response, write_json, write_json_error, respond, with_claims, with_body,
}
use go_order_service.Api.Requests.{CreateOrderRequest, decode_create_order}
use go_order_service.Api.Responses.{new_order_response}
use go_order_service.Api.Orders.{
  create_params, pay_params, get_order_error, handle_create_order, handle_get_order, pay_locked,
}

module _ (env : Env) (r : Request) (c : Claims) where
  -- A request for a new order that succeeded, sent again later, while the database can be reached and
  -- the key of the request stands, gets the response with the same status and the order as it is by
  -- then, which is the same response if the order has not changed, and writes nothing.
  pub handle_create_order_twice :
      (body : CreateOrderRequest) (result : CreateOrderResult) (o : Order) (w w' v : World)
      → Quiet env v
      → r.claims ≡ some c
      → decode_create_order r.body ≡ some body
      → create_order env (create_params r c body) w ≡ (ok result, w')
      → KeyStays env (create_params r c body) w'.db v.db
      → find_order result.order.id v.db.orders ≡ some o
      → (handle_create_order env r w
          ≡ (write_json result.status_code (new_order_response env result.order), w'))
        × ((handle_create_order env r v).0
            ≡ write_json result.status_code (new_order_response env o))
        × ((handle_create_order env r v).1.db ≡ v.db)
  unfolding handle_create_order with_claims with_body respond
  handle_create_order_twice body result o w w' v quiet known decoded made stays found =
      let again =
        create_order_later env (create_params r c body) result o w w' v quiet made stays found in
      (
        simp (known, decoded, made) refl,
        simp (known, decoded, again) refl,
        simp (known, decoded, again) refl,
      )

  -- The same of a payment, under the lock.
  pub pay_locked_twice :
      (result : PayOrderResult) (w w' : World)
      → PayQuiet env w'
      → pay_order env (pay_params r c) w ≡ (ok result, w')
      → ((pay_locked env r c w).1 ≡ w')
        × ((pay_locked env r c w').0 ≡ (pay_locked env r c w).0)
        × ((pay_locked env r c w').1.db ≡ w'.db)
  unfolding pay_locked respond
  pay_locked_twice result w w' quiet made =
      let again = pay_order_twice env (pay_params r c) result w w' quiet made in
      simp (made, again) (refl, refl, refl)

  -- The response shows an order that the caller may see; or it is 404; or it is 403 and the search at
  -- the call has found the order, which is another's.
  pub data Discreet (p : GetOrderParams) (call : ℕ) (db : Db) : Response × World → Type 0 where
    shows :
        {w : World} (o : Order)
        → Shown env p db o w.db
        → Discreet p call db (write_json 200 (new_order_response env o), w)
    hides :
        {response : Response} {w : World}
        → (response ≡ write_json_error 404 "order not found")
          ⊎ ((response ≡ write_json_error 403 "order forbidden") × Foreign env p call db)
        → w.db ≡ db
        → Discreet p call db (response, w)

  answered :
      (p : GetOrderParams) (call : ℕ) (before : Db) (result : Result Order × World)
      → Ends (Shown env p before) (Hidden env p call before) result
      → Discreet p call before
          (respond (λ o. write_json 200 (new_order_response env o)) get_order_error result)
  unfolding respond
  answered p call before (ok o, w) h = shows o h.as_stated
  answered p call before (err e, w) h = let (same, why) = h.as_stated in hides (reason e why) same
    where
      reason :
          (x : Error)
          → (x ≡ order_not_found) ⊎ ((x ≡ order_forbidden) × Foreign env p call before)
          → (get_order_error x ≡ write_json_error 404 "order not found")
            ⊎ ((get_order_error x ≡ write_json_error 403 "order forbidden")
                × Foreign env p call before)
      reason x (inl q) = inl (rw q refl)
      reason x (inr (q, f)) = inr (rw q refl, f)

  -- The response to a request for one order has an order only if it is the caller's own or the caller
  -- is an admin. Otherwise it says nothing of the order: it is 403 only if the database has answered
  -- with an order of someone else and the caller is no admin, and 404 in all other cases, an error of
  -- the database included.
  pub handle_get_order-Discreet :
      (w : World)
      → r.claims ≡ some c
      → (r.id == "") ≡ false
      → Discreet
          (record { user_id = c.user_id; role = c.role; order_id = r.id })
          w.ticks
          w.db
          (handle_get_order env r w)
  unfolding handle_get_order with_claims
  handle_get_order-Discreet w known given =
      simp (known, given) (answered _ w.ticks w.db _ (get_order-Shown env _ w))

-- ===== src/Api/Responses.antt =====
-- internal/api/order_handler.go and auth_handler.go: the structs that responses are encoded from.
use go_order_service.Prelude.{ℕ, String, Option, none, some, List, [], ◌∷◌}
use go_order_service.Encoding.{Json, num, str, obj, Items, nil, cons, Fields, end, field}
use go_order_service.Schema.{User, Order, Payment, order_status_text, payment_status_text}
use go_order_service.Runtime.{Env}
use go_order_service.Orders.Payloads.{omit_empty}

-- `pgtype.Text.String`, which is empty for NULL.
abbrev pub text_or_empty : Option String → String
text_or_empty none = ""
text_or_empty (some s) = s

abbrev pub json_items : List Json → Items
json_items [] = nil
json_items (v ∷ vs) = cons v (json_items vs)

module _ (env : Env) where
  abbrev times : ℕ → ℕ → Fields
  times created_at updated_at =
      field "created_at" (str (env.format_time created_at))
        (field "updated_at" (str (env.format_time updated_at)) end)

  -- `newOrderResponse`, `newPaymentResponse`, `newUserResponse`, with their tags.
  unfoldable pub new_order_response : Order → Json
  new_order_response o = obj (
      field "id" (str (env.render o.id)) (
        field "user_id" (str (env.render o.user_id)) (
          field "status" (str (order_status_text o.status)) (
            field "amount_cents" (num o.amount_cents) (
              field "currency" (str o.currency) (
                omit_empty "description" (text_or_empty o.description)
                  (times o.created_at o.updated_at)))))))

  unfoldable pub new_payment_response : Payment → Json
  new_payment_response y = obj (
      field "id" (str (env.render y.id)) (
        field "order_id" (str (env.render y.order_id)) (
          field "status" (str (payment_status_text y.status)) (
            field "amount_cents" (num y.amount_cents) (
              field "provider" (str y.provider) (
                omit_empty "provider_ref" (text_or_empty y.provider_ref) (
                  omit_empty "failure_reason" (text_or_empty y.failure_reason)
                    (times y.created_at y.updated_at))))))))

  unfoldable pub new_user_response : User → Json
  new_user_response u = obj (
      field "id" (str (env.render u.id))
        (field "email" (str u.email) (field "role" (str u.role) (times u.created_at u.updated_at))))

  -- `payOrderResponse`, `loginResponse`, and the list of `handleListOrders`.
  unfoldable pub pay_order_response : Order → Payment → Json
  pay_order_response o y =
      obj (field "order" (new_order_response o) (field "payment" (new_payment_response y) end))

  unfoldable pub login_response : String → User → Json
  login_response access_token u = obj (
      field "access_token" (str access_token)
        (field "token_type" (str "Bearer") (field "user" (new_user_response u) end)))

  unfoldable pub order_responses : List Order → List Json
  order_responses [] = []
  order_responses (o ∷ os) = new_order_response o ∷ order_responses os

-- ===== src/Orders/Payloads.antt =====
-- internal/service/order_service.go: the structs that are marshalled to JSON, and the request hash
-- of internal/service/idempotency.go.
use go_order_service.Prelude.{String, Option, none, some, if◌then◌else◌, ◌==◌, string_eq}
use go_order_service.Prelude.Int.{ℤ}
use go_order_service.Encoding.{Json, null, num, str, obj, Fields, end, field, encoded}
use go_order_service.Schema.{
  OrderStatus, PaymentStatus, Order, Payment, order_status_text, payment_status_text,
}
use go_order_service.Runtime.{Env}

pub record OrderCreatedEventPayload : Type 0 where
  pub order_id : String
  pub user_id : String
  pub status : OrderStatus
  pub amount_cents : ℤ
  pub currency : String
  pub description : String

pub record PaymentEventPayload : Type 0 where
  pub payment_id : String
  pub order_id : String
  pub user_id : String
  pub status : PaymentStatus
  pub amount_cents : ℤ
  pub currency : String
  pub provider : String
  pub provider_ref : String
  pub failure_reason : String

pub record OrderCancelledEventPayload : Type 0 where
  pub order_id : String
  pub user_id : String
  pub status : OrderStatus

-- A field with `omitempty`.
abbrev pub omit_empty : String → String → Fields → Fields
omit_empty name text rest = if text == "" then rest else field name (str text) rest

unfoldable pub order_created_json : OrderCreatedEventPayload → Json
order_created_json p = obj (
    field "order_id" (str p.order_id) (
      field "user_id" (str p.user_id) (
        field "status" (str (order_status_text p.status)) (
          field "amount_cents" (num p.amount_cents)
            (field "currency" (str p.currency) (field "description" (str p.description) end))))))

unfoldable pub payment_json : PaymentEventPayload → Json
payment_json p = obj (
    field "payment_id" (str p.payment_id) (
      field "order_id" (str p.order_id) (
        field "user_id" (str p.user_id) (
          field "status" (str (payment_status_text p.status)) (
            field "amount_cents" (num p.amount_cents) (
              field "currency" (str p.currency) (
                field "provider" (str p.provider) (
                  omit_empty "provider_ref" p.provider_ref
                    (omit_empty "failure_reason" p.failure_reason end)))))))))

unfoldable pub order_cancelled_json : OrderCancelledEventPayload → Json
order_cancelled_json p = obj (
    field "order_id" (str p.order_id)
      (field "user_id" (str p.user_id) (field "status" (str (order_status_text p.status)) end)))

abbrev text_json : Option String → Json
text_json none = null
text_json (some s) = str s

module _ (env : Env) where
  -- `json.Marshal` of a `sqlc.Order` and of a `sqlc.Payment`.
  unfoldable pub order_row_json : Order → Json
  order_row_json o = obj (
      field "id" (str (env.render o.id)) (
        field "user_id" (str (env.render o.user_id)) (
          field "status" (str (order_status_text o.status)) (
            field "amount_cents" (num o.amount_cents) (
              field "currency" (str o.currency) (
                field "description" (text_json o.description) (
                  field "created_at" (str (env.format_time o.created_at))
                    (field "updated_at" (str (env.format_time o.updated_at)) end))))))))

  unfoldable pub payment_row_json : Payment → Json
  payment_row_json y = obj (
      field "id" (str (env.render y.id)) (
        field "order_id" (str (env.render y.order_id)) (
          field "status" (str (payment_status_text y.status)) (
            field "amount_cents" (num y.amount_cents) (
              field "provider" (str y.provider) (
                field "provider_ref" (text_json y.provider_ref) (
                  field "failure_reason" (text_json y.failure_reason) (
                    field "created_at" (str (env.format_time y.created_at))
                      (field "updated_at" (str (env.format_time y.updated_at)) end)))))))))

  -- `HashRequestBody`.
  unfoldable pub hash_request_body : Json → String
  hash_request_body value = env.sha256_hex (encoded value)

-- The request bodies that are hashed.
abbrev pub create_body : ℤ → String → String → Json
create_body amount_cents currency description = obj (
    field "amount_cents" (num amount_cents)
      (field "currency" (str currency) (field "description" (str description) end)))

abbrev pub pay_body : String → Json
pay_body order_id = obj (field "order_id" (str order_id) end)

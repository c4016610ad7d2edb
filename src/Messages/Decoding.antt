-- ===== src/Messages/Decoding.antt =====
-- Reading back what was written.
use go_order_service.Prelude.{◌≡◌, refl, some, arith}
use go_order_service.Encoding.{Json, encoded}
use go_order_service.Messages.{
  OutboxMessage, marshal_message, unmarshal_message, unmarshal_user_id, same_name, read_field,
  read_fields, read_user_field, read_user_fields,
}
use go_order_service.Orders.Payloads.{
  OrderCreatedEventPayload, PaymentEventPayload, OrderCancelledEventPayload, order_created_json,
  payment_json, order_cancelled_json,
}

-- The consumer reads the message that the publisher wrote, payload included.
pub unmarshal-marshal :
    (m : OutboxMessage) (v : Json)
    → m.payload ≡ encoded v
    → unmarshal_message (encoded (marshal_message m)) ≡ some m
unfolding unmarshal_message marshal_message read_fields read_field same_name
unmarshal-marshal m v h = rw h refl

-- The recipient that the consumer reads in a payload of the order service is its user.
pub unmarshal-created :
    (p : OrderCreatedEventPayload)
    → unmarshal_user_id (encoded (order_created_json p)) ≡ some p.user_id
unfolding unmarshal_user_id order_created_json read_user_fields read_user_field same_name
unmarshal-created p = refl

pub unmarshal-cancelled :
    (p : OrderCancelledEventPayload)
    → unmarshal_user_id (encoded (order_cancelled_json p)) ≡ some p.user_id
unfolding unmarshal_user_id order_cancelled_json read_user_fields read_user_field same_name
unmarshal-cancelled p = refl

pub unmarshal-payment :
    (p : PaymentEventPayload) → unmarshal_user_id (encoded (payment_json p)) ≡ some p.user_id
unfolding unmarshal_user_id payment_json read_user_fields read_user_field same_name
unmarshal-payment p = ground arith

-- ===== src/Orders/Create.antt =====
-- internal/service/order_service.go: `CreateOrder`.
pub mod Effects
pub mod Outcome
pub mod Replay
pub mod Progress
use go_order_service.Prelude.{
  ℕ, String, Bool, true, false, ◌||◌, not, Option, none, some, if◌then◌else◌, or_else, ◌==◌, nat_eq,
  string_eq,
}
use go_order_service.Prelude.Int.{ℤ, pos, leb_ℤ}
use go_order_service.Prelude.Strings.{trim_space, map_chars}
use go_order_service.Schema.{Order, pending_payment, order, order_created, IdempotencyKey}
use go_order_service.Runtime.{
  invalid_input, idempotency_key_required, idempotency_conflict, Result, ok, err, Env, Action, pure,
  raise, ◌>>=◌, ◌>>◌, attempt, orders_created, count_metric, new_uuid, with_tx,
}
use go_order_service.Store.Orders as OrderStore
use go_order_service.Store.Outbox as OutboxStore
use go_order_service.Store.Idempotency as IdempotencyStore
use go_order_service.Orders.Payloads.{
  order_created_json, order_row_json, hash_request_body, create_body,
}

pub record CreateOrderParams : Type 0 where
  pub user_id : String
  pub idempotency_key : String
  pub method : String
  pub path : String
  pub amount_cents : ℤ
  pub currency : String
  pub description : String

pub record CreateOrderResult : Type 0 where
  pub order : Order
  pub status_code : ℕ
  pub cached : Bool

-- `UUID.String`, which is empty for NULL.
abbrev pub uuid_text : Env → Option ℕ → String
uuid_text env none = ""
uuid_text env (some u) = env.render u

-- Whether a stored key answers another request than this one.
abbrev pub conflicts : IdempotencyKey → String → String → String → Bool
conflicts k method path request_hash =
    not (k.method == method) || not (k.path == path) || not (k.request_hash == request_hash)

-- `int(existing.StatusCode.Int32)`, and `http.StatusOK` for zero.
abbrev pub stored_status : IdempotencyKey → ℕ
stored_status k = let code = or_else k.status_code 0 in if code == 0 then 200 else code

module _ (env : Env) where
  -- The parameters as they are after trimming and folding.
  abbrev pub create_key : CreateOrderParams → String
  create_key p = trim_space p.idempotency_key

  abbrev pub create_currency : CreateOrderParams → String
  create_currency p = trim_space (map_chars env.upper p.currency)

  abbrev pub create_description : CreateOrderParams → String
  create_description p = trim_space p.description

  abbrev pub create_hash : CreateOrderParams → String
  create_hash p =
      hash_request_body env (create_body p.amount_cents (create_currency p) (create_description p))

  -- The answer to a request whose key is stored.
  pub replay_create : CreateOrderParams → IdempotencyKey → Action CreateOrderResult
  replay_create p existing =
      if conflicts existing p.method p.path (create_hash p) then raise idempotency_conflict else do
        found ← OrderStore.get_order env (uuid_text env existing.resource_id)
        pure (record { order = found; status_code = stored_status existing; cached = true })

  -- The body of the transaction.
  pub create_order_body : CreateOrderParams → Action Order
  create_order_body p = do
    order_id ← new_uuid env
    created ← OrderStore.create_order env (record {
      id = order_id;
      user_id = p.user_id;
      status = pending_payment;
      amount_cents = p.amount_cents;
      currency = create_currency p;
      description = create_description p;
    })
    event_id ← new_uuid env
    OutboxStore.create_outbox_event env (record {
      id = event_id;
      aggregate_type = order;
      aggregate_id = env.render created.id;
      partition_key = env.render created.id;
      event_type = order_created;
      payload = order_created_json (record {
        order_id = order_id;
        user_id = p.user_id;
        status = pending_payment;
        amount_cents = p.amount_cents;
        currency = create_currency p;
        description = create_description p;
      });
    })
    key_id ← new_uuid env
    IdempotencyStore.create_idempotency_key env (record {
      id = key_id;
      user_id = p.user_id;
      key = create_key p;
      method = p.method;
      path = p.path;
      request_hash = create_hash p;
      response_body = order_row_json env created;
      status_code = 201;
      resource_type = "order";
      resource_id = env.render created.id;
    })
    pure created

  -- A request whose key is not found.
  pub create_new : CreateOrderParams → Action CreateOrderResult
  unfolding create_order_body
  create_new p = do
    created ← with_tx env (create_order_body p)
    count_metric orders_created
    pure (record { order = created; status_code = 201; cached = false })

  -- Whatever the error of the search, the request is taken for a new one.
  pub answer_create : CreateOrderParams → Result IdempotencyKey → Action CreateOrderResult
  unfolding replay_create create_new
  answer_create p (ok existing) = replay_create p existing
  answer_create p (err _) = create_new p

  unfoldable pub create_order : CreateOrderParams → Action CreateOrderResult
  unfolding answer_create
  create_order p =
      if create_key p == ""
      then raise idempotency_key_required
      else if p.user_id == "" || leb_ℤ p.amount_cents (pos 0) || create_currency p == ""
      then raise invalid_input
      else do
        existing ← attempt (IdempotencyStore.get_idempotency_key env p.user_id (create_key p))
        answer_create p existing

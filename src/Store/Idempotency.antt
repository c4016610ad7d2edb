-- ===== src/Store/Idempotency.antt =====
-- internal/store/store.go: idempotency keys.
use go_order_service.Prelude.{ℕ, String, Option, none, some, ltb, if◌then◌else◌, ◌==◌, string_eq}
use go_order_service.Encoding.{Json}
use go_order_service.Schema.{IdempotencyKey}
use go_order_service.Runtime.{Env, Action, pure, ◌>>=◌, query, scan_uuid}
use go_order_service.Sqlc.Idempotency
use go_order_service.Store.Orders.{text_or_null}

pub record CreateIdempotencyKeyParams : Type 0 where
  pub id : String
  pub user_id : String
  pub key : String
  pub method : String
  pub path : String
  pub request_hash : String
  pub response_body : Json
  pub status_code : ℕ
  pub resource_type : String
  pub resource_id : String

-- `pgtype.Int4{Int32: n, Valid: n > 0}`
abbrev pub int_or_null : ℕ → Option ℕ
int_or_null n = if ltb 0 n then some n else none

module _ (env : Env) where
  scan_resource : String → Action (Option ℕ)
  scan_resource text = if text == "" then pure none else do id ← scan_uuid env text; pure (some id)

  unfoldable pub create_idempotency_key : CreateIdempotencyKeyParams → Action IdempotencyKey
  unfolding scan_resource
  create_idempotency_key p = do
    id ← scan_uuid env p.id
    user_id ← scan_uuid env p.user_id
    resource_id ← scan_resource p.resource_id
    query env (
        Idempotency.create_idempotency_key (record {
          id = id;
          user_id = user_id;
          key = p.key;
          method = p.method;
          path = p.path;
          request_hash = p.request_hash;
          response_body = p.response_body;
          status_code = int_or_null p.status_code;
          resource_type = text_or_null p.resource_type;
          resource_id = resource_id;
        }))

  unfoldable pub get_idempotency_key : String → String → Action IdempotencyKey
  get_idempotency_key user_id key = do
    id ← scan_uuid env user_id
    query env (Idempotency.get_idempotency_key id key)

-- ===== src/Sqlc/Idempotency.antt =====
-- internal/store/sqlc/idempotency.sql.go.
use go_order_service.Prelude.{
  ℕ, String, ◌&&◌, Option, none, some, List, ◌∷◌, if◌then◌else◌, ◌==◌, nat_eq, string_eq,
}
use go_order_service.Prelude.Strings.{has_nul}
use go_order_service.Prelude.{◌||◌}
use go_order_service.Prelude.Lists.{find, contains}
use go_order_service.Encoding.{Json}
use go_order_service.Schema.{IdempotencyKey}
use go_order_service.Runtime.{ok, err, no_rows, pg_error, Statement}

pub record CreateIdempotencyKeyParams : Type 0 where
  pub id : ℕ
  pub user_id : ℕ
  pub key : String
  pub method : String
  pub path : String
  pub request_hash : String
  pub response_body : Json
  pub status_code : Option ℕ
  pub resource_type : Option String
  pub resource_id : Option ℕ

abbrev pub find_key : ℕ → String → List IdempotencyKey → Option IdempotencyKey
find_key user_id key = find (λ k. k.user_id == user_id && k.key == key)

unfoldable pub create_idempotency_key : CreateIdempotencyKeyParams → Statement IdempotencyKey
create_idempotency_key p now db =
    let row : IdempotencyKey = record {
      id = p.id;
      user_id = p.user_id;
      key = p.key;
      method = p.method;
      path = p.path;
      request_hash = p.request_hash;
      response_body = p.response_body;
      status_code = p.status_code;
      resource_type = p.resource_type;
      resource_id = p.resource_id;
      created_at = now;
    } in
    if has_nul p.key || has_nul p.method || has_nul p.path
    then err (pg_error "22021")
    else if contains (λ k. k.id == p.id) db.idempotency_keys
    then err (pg_error "23505")
    else if contains (λ k. k.user_id == p.user_id && k.key == p.key) db.idempotency_keys
    then err (pg_error "23505")
    else if contains (λ u. u.id == p.user_id) db.users
    then ok (row, record db { idempotency_keys = row ∷ db.idempotency_keys })
    else err (pg_error "23503")

unfoldable pub get_idempotency_key : ℕ → String → Statement IdempotencyKey
get_idempotency_key user_id key now db = elim (find_key user_id key db.idempotency_keys) [
  | none ↦ err no_rows
  | some k ↦ ok (k, db)
]

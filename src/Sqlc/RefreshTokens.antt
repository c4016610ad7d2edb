-- ===== src/Sqlc/RefreshTokens.antt =====
-- internal/store/sqlc/refresh_tokens.sql.go.
use go_order_service.Prelude.{
  ℕ, String, Bool, true, false, ◌&&◌, none, some, ◌∷◌, if◌then◌else◌, ◌==◌, nat_eq, string_eq,
}
use go_order_service.Prelude.Lists.{find, contains, update}
use go_order_service.Schema.{RefreshToken}
use go_order_service.Runtime.{ok, err, no_rows, pg_error, Statement}

pub record CreateRefreshTokenParams : Type 0 where
  pub id : ℕ
  pub user_id : ℕ
  pub token_hash : String
  pub expires_at : ℕ

unfoldable pub create_refresh_token : CreateRefreshTokenParams → Statement RefreshToken
create_refresh_token p now db =
    let row : RefreshToken = record {
      id = p.id;
      user_id = p.user_id;
      token_hash = p.token_hash;
      expires_at = p.expires_at;
      revoked_at = none;
      created_at = now;
    } in
    if contains (λ t. t.id == p.id) db.refresh_tokens
    then err (pg_error "23505")
    else if contains (λ t. t.token_hash == p.token_hash) db.refresh_tokens
    then err (pg_error "23505")
    else if contains (λ u. u.id == p.user_id) db.users
    then ok (row, record db { refresh_tokens = row ∷ db.refresh_tokens })
    else err (pg_error "23503")

unfoldable pub get_refresh_token_by_hash : String → Statement RefreshToken
get_refresh_token_by_hash token_hash now db =
    elim (find (λ t. t.token_hash == token_hash) db.refresh_tokens) [
      | none ↦ err no_rows
      | some t ↦ ok (t, db)
    ]

-- `revoked_at IS NULL`
abbrev pub is_active : RefreshToken → Bool
is_active t = elim t.revoked_at [ none ↦ true | some _ ↦ false ]

unfoldable pub revoke_refresh_token : ℕ → Statement RefreshToken
revoke_refresh_token id now db = elim (find (λ t. t.id == id && is_active t) db.refresh_tokens) [
  | none ↦ err no_rows
  | some t ↦ ok (
    record t { revoked_at = some now },
    record db {
      refresh_tokens =
          update (λ r. r.id == id && is_active r) (λ r. record r { revoked_at = some now })
            db.refresh_tokens;
    },
  )
]

-- ===== src/Store/Users.antt =====
-- internal/store/store.go: users and refresh tokens.
use go_order_service.Prelude.{ℕ, String}
use go_order_service.Schema.{User, RefreshToken}
use go_order_service.Runtime.{Env, Action, ◌>>=◌, query, execute, scan_uuid}
use go_order_service.Sqlc.Users
use go_order_service.Sqlc.RefreshTokens

pub record CreateUserParams : Type 0 where
  pub id : String
  pub email : String
  pub password_hash : String
  pub role : String

pub record CreateRefreshTokenParams : Type 0 where
  pub id : String
  pub user_id : String
  pub token_hash : String
  pub expires_at : ℕ

module _ (env : Env) where
  unfoldable pub create_user : CreateUserParams → Action User
  create_user p = do
    id ← scan_uuid env p.id
    execute env (
        Users.create_user
          (record { id = id; email = p.email; password_hash = p.password_hash; role = p.role }))

  unfoldable pub get_user_by_email : String → Action User
  get_user_by_email email = query env (Users.get_user_by_email email)

  unfoldable pub get_user : String → Action User
  get_user id = do user_id ← scan_uuid env id; query env (Users.get_user user_id)

  unfoldable pub create_refresh_token : CreateRefreshTokenParams → Action RefreshToken
  create_refresh_token p = do
    id ← scan_uuid env p.id
    user_id ← scan_uuid env p.user_id
    execute env (
        RefreshTokens.create_refresh_token (record {
          id = id;
          user_id = user_id;
          token_hash = p.token_hash;
          expires_at = p.expires_at;
        }))

  unfoldable pub get_refresh_token_by_hash : String → Action RefreshToken
  get_refresh_token_by_hash token_hash =
      query env (RefreshTokens.get_refresh_token_by_hash token_hash)

  unfoldable pub revoke_refresh_token : String → Action RefreshToken
  revoke_refresh_token id = do
    token_id ← scan_uuid env id
    execute env (RefreshTokens.revoke_refresh_token token_id)

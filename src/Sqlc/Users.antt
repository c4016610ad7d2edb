-- ===== src/Sqlc/Users.antt =====
-- internal/store/sqlc/users.sql.go.
use go_order_service.Prelude.{
  ℕ, String, Bool, ◌||◌, not, none, some, ◌∷◌, if◌then◌else◌, ◌==◌, nat_eq, string_eq,
}
use go_order_service.Prelude.Strings.{has_nul}
use go_order_service.Prelude.Lists.{find, contains}
use go_order_service.Schema.{User}
use go_order_service.Runtime.{ok, err, no_rows, pg_error, Statement}

pub record CreateUserParams : Type 0 where
  pub id : ℕ
  pub email : String
  pub password_hash : String
  pub role : String

-- `CHECK (role IN ('customer', 'admin'))`
abbrev pub is_role : String → Bool
is_role role = role == "customer" || role == "admin"

unfoldable pub create_user : CreateUserParams → Statement User
create_user p now db =
    let row : User = record {
      id = p.id;
      email = p.email;
      password_hash = p.password_hash;
      role = p.role;
      created_at = now;
      updated_at = now;
    } in
    if has_nul p.email || has_nul p.password_hash || has_nul p.role
    then err (pg_error "22021")
    else if not (is_role p.role)
    then err (pg_error "23514")
    else if contains (λ u. u.id == p.id) db.users
    then err (pg_error "23505")
    else if contains (λ u. u.email == p.email) db.users
    then err (pg_error "23505")
    else ok (row, record db { users = row ∷ db.users })

unfoldable pub get_user : ℕ → Statement User
get_user id now db = elim (find (λ u. u.id == id) db.users) [
  | none ↦ err no_rows
  | some u ↦ ok (u, db)
]

unfoldable pub get_user_by_email : String → Statement User
get_user_by_email email now db = elim (find (λ u. u.email == email) db.users) [
  | none ↦ err no_rows
  | some u ↦ ok (u, db)
]

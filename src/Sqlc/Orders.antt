-- ===== src/Sqlc/Orders.antt =====
-- internal/store/sqlc/orders.sql.go.
use go_order_service.Prelude.{
  ℕ, String, Bool, Option, none, some, List, ◌∷◌, ltb, if◌then◌else◌, ◌==◌, nat_eq,
}
use go_order_service.Prelude.Int.{ℤ, pos, leb_ℤ}
use go_order_service.Prelude.Strings.{has_nul, has_nul_or_null}
use go_order_service.Prelude.{◌||◌}
use go_order_service.Prelude.Lists.{find, contains, select, update}
use go_order_service.Prelude.Sorting.{sort_by}
use go_order_service.Schema.{OrderStatus, Order}
use go_order_service.Runtime.{ok, err, no_rows, pg_error, Statement}

pub record CreateOrderParams : Type 0 where
  pub id : ℕ
  pub user_id : ℕ
  pub status : OrderStatus
  pub amount_cents : ℤ
  pub currency : String
  pub description : Option String

abbrev pub find_order : ℕ → List Order → Option Order
find_order id = find (λ o. o.id == id)

unfoldable pub create_order : CreateOrderParams → Statement Order
create_order p now db =
    let row : Order = record {
      id = p.id;
      user_id = p.user_id;
      status = p.status;
      amount_cents = p.amount_cents;
      currency = p.currency;
      description = p.description;
      created_at = now;
      updated_at = now;
    } in
    if has_nul p.currency || has_nul_or_null p.description
    then err (pg_error "22021")
    else if leb_ℤ p.amount_cents (pos 0)
    then err (pg_error "23514")
    else if contains (λ o. o.id == p.id) db.orders
    then err (pg_error "23505")
    else if contains (λ u. u.id == p.user_id) db.users
    then ok (row, record db { orders = row ∷ db.orders })
    else err (pg_error "23503")

unfoldable pub get_order : ℕ → Statement Order
get_order id now db = elim (find_order id db.orders) [ none ↦ err no_rows | some o ↦ ok (o, db) ]

-- `FOR UPDATE` locks the row until the transaction ends: actions are made one after another here.
unfoldable pub get_order_for_update : ℕ → Statement Order
get_order_for_update id now db = elim (find_order id db.orders) [
  | none ↦ err no_rows
  | some o ↦ ok (o, db)
]

-- `ORDER BY created_at DESC`
abbrev pub is_newer : Order → Order → Bool
is_newer a b = ltb b.created_at a.created_at

unfoldable pub list_orders : Statement (List Order)
list_orders now db = ok (sort_by is_newer db.orders, db)

unfoldable pub list_orders_by_user : ℕ → Statement (List Order)
list_orders_by_user user_id now db =
    ok (sort_by is_newer (select (λ o. o.user_id == user_id) db.orders), db)

unfoldable pub update_order_status : ℕ → OrderStatus → Statement Order
update_order_status id status now db = elim (find_order id db.orders) [
  | none ↦ err no_rows
  | some o ↦ ok (
    record o { status = status; updated_at = now },
    record db {
      orders =
          update (λ r. r.id == id) (λ r. record r { status = status; updated_at = now }) db.orders;
    },
  )
]

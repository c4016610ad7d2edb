-- ===== src/Sqlc/Payments.antt =====
-- internal/store/sqlc/payments.sql.go.
use go_order_service.Prelude.{ℕ, String, Option, none, some, List, ◌∷◌, if◌then◌else◌, ◌==◌, nat_eq}
use go_order_service.Prelude.Int.{ℤ, pos, leb_ℤ}
use go_order_service.Prelude.Lists.{find, contains}
use go_order_service.Schema.{PaymentStatus, Payment}
use go_order_service.Runtime.{ok, err, no_rows, pg_error, Statement}

pub record CreatePaymentParams : Type 0 where
  pub id : ℕ
  pub order_id : ℕ
  pub status : PaymentStatus
  pub amount_cents : ℤ
  pub provider : String
  pub provider_ref : Option String
  pub failure_reason : Option String

abbrev pub find_payment : ℕ → List Payment → Option Payment
find_payment id = find (λ p. p.id == id)

unfoldable pub create_payment : CreatePaymentParams → Statement Payment
create_payment p now db =
    let row : Payment = record {
      id = p.id;
      order_id = p.order_id;
      status = p.status;
      amount_cents = p.amount_cents;
      provider = p.provider;
      provider_ref = p.provider_ref;
      failure_reason = p.failure_reason;
      created_at = now;
      updated_at = now;
    } in
    if leb_ℤ p.amount_cents (pos 0)
    then err (pg_error "23514")
    else if contains (λ r. r.id == p.id) db.payments
    then err (pg_error "23505")
    else if contains (λ o. o.id == p.order_id) db.orders
    then ok (row, record db { payments = row ∷ db.payments })
    else err (pg_error "23503")

unfoldable pub get_payment : ℕ → Statement Payment
get_payment id now db = elim (find_payment id db.payments) [
  | none ↦ err no_rows
  | some p ↦ ok (p, db)
]

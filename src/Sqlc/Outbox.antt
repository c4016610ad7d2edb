-- ===== src/Sqlc/Outbox.antt =====
-- internal/store/sqlc/outbox.sql.go.
use go_order_service.Prelude.{
  ℕ, suc, String, Bool, true, false, not, Option, none, some, List, ◌∷◌, ltb, if◌then◌else◌, ◌==◌,
  nat_eq,
}
use go_order_service.Prelude.Int.{ℤ, pos, negsuc}
use go_order_service.Prelude.Lists.{find, contains, select, take, update}
use go_order_service.Prelude.Sorting.{sort_by}
use go_order_service.Encoding.{Json}
use go_order_service.Schema.{AggregateType, order, payment, EventType, OutboxEvent}
use go_order_service.Runtime.{ok, err, no_rows, pg_error, Statement}

pub record CreateOutboxEventParams : Type 0 where
  pub id : ℕ
  pub aggregate_type : AggregateType
  pub aggregate_id : ℕ
  pub partition_key : ℕ
  pub event_type : EventType
  pub payload : Json

-- `CONSTRAINT outbox_events_event_aggregate_check`
abbrev pub fits_aggregate : AggregateType → EventType → Bool
fits_aggregate order EventType.order_created = true
fits_aggregate order EventType.order_cancelled = true
fits_aggregate order EventType.payment_succeeded = false
fits_aggregate order EventType.payment_failed = false
fits_aggregate payment EventType.order_created = false
fits_aggregate payment EventType.order_cancelled = false
fits_aggregate payment EventType.payment_succeeded = true
fits_aggregate payment EventType.payment_failed = true

-- `published_at IS NULL`
abbrev pub is_unpublished : OutboxEvent → Bool
is_unpublished e = elim e.published_at [ none ↦ true | some _ ↦ false ]

-- `ORDER BY created_at`
abbrev pub is_older : OutboxEvent → OutboxEvent → Bool
is_older a b = ltb a.created_at b.created_at

-- `LIMIT` refuses a negative number. `FOR UPDATE SKIP LOCKED` passes over rows that another
-- transaction holds: actions are made one after another here, so there are none.
unfoldable pub claim_outbox_events : ℤ → Statement (List OutboxEvent)
claim_outbox_events (pos limit) now db =
    ok (take limit (sort_by is_older (select is_unpublished db.outbox_events)), db)
claim_outbox_events (negsuc n) now db = err (pg_error "2201W")

unfoldable pub create_outbox_event : CreateOutboxEventParams → Statement OutboxEvent
create_outbox_event p now db =
    let row : OutboxEvent = record {
      id = p.id;
      aggregate_type = p.aggregate_type;
      aggregate_id = p.aggregate_id;
      event_type = p.event_type;
      payload = p.payload;
      published_at = none;
      attempt = 0;
      last_error = none;
      created_at = now;
      partition_key = p.partition_key;
    } in
    if not (fits_aggregate p.aggregate_type p.event_type)
    then err (pg_error "23514")
    else if contains (λ e. e.id == p.id) db.outbox_events
    then err (pg_error "23505")
    else ok (row, record db { outbox_events = row ∷ db.outbox_events })

-- `attempt + 1` stays below the limit of an INT while a row has been tried fewer than 2^31 times.
abbrev pub failed_row : Option String → OutboxEvent → OutboxEvent
failed_row last_error e = record e { attempt = suc e.attempt; last_error = last_error }

abbrev pub published_row : ℕ → OutboxEvent → OutboxEvent
published_row now e = record e { published_at = some now; last_error = none }

unfoldable pub mark_outbox_event_failed : ℕ → Option String → Statement OutboxEvent
mark_outbox_event_failed id last_error now db = elim (find (λ e. e.id == id) db.outbox_events) [
  | none ↦ err no_rows
  | some e ↦ ok (
    failed_row last_error e,
    record db { outbox_events = update (λ r. r.id == id) (failed_row last_error) db.outbox_events },
  )
]

unfoldable pub mark_outbox_event_published : ℕ → Statement OutboxEvent
mark_outbox_event_published id now db = elim (find (λ e. e.id == id) db.outbox_events) [
  | none ↦ err no_rows
  | some e ↦ ok (
    published_row now e,
    record db { outbox_events = update (λ r. r.id == id) (published_row now) db.outbox_events },
  )
]

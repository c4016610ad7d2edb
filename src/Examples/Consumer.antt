-- ===== src/Examples/Consumer.antt =====
-- The properties of the consumer at concrete messages.
use go_order_service.Prelude.{
  ℕ, zero, suc, String, ◌≡◌, refl, ◌⊎◌, ◌↔◌, true, false, none, some, Option, [], ◌∷◌, List,
  if◌then◌else◌, ◌==◌, string_eq, eq_iff, nat_eq, Bool-cases, inl, inr,
}
use go_order_service.Prelude.Int.{pos}
use go_order_service.Encoding.{str, Bytes, encoded, malformed}
use go_order_service.Runtime.{
  Env, World, ok, err, invalid_message, bad_uuid, consumer_events_processed, ◌>>=◌, attempt,
  with_tx, new_uuid, query, scan_uuid, tick,
}
use go_order_service.Runtime.Ends.{Ends, Atomic}
use go_order_service.Sqlc.Consumption as ConsumptionQueries
use go_order_service.Store.Consumption as ConsumptionStore
use go_order_service.Orders.Payloads.{order_created_json}
use go_order_service.Messages.{
  OutboxMessage, marshal_message, unmarshal_message, unmarshal_user_id, same_name, read_field,
  read_fields, read_user_field, read_user_fields,
}
use go_order_service.Messages.Decoding.{unmarshal-marshal}
use go_order_service.Consumer.{Notice, validate, handle, process, process_body}
use go_order_service.Consumer.Deliveries.{HandleOutcome, Rejected, handle-Outcome}
use go_order_service.Consumer.Inbox.{handle_twice}
use go_order_service.Consumer.Errors.{handle-invalid}
use go_order_service.Consumer.Loop.{Record, message, failure, Turn, Session, poll_loop, run}
use go_order_service.Consumer.Loop.Offsets.{IsSafe, run-IsSafe, poll_loop_stuck}
use go_order_service.Examples.{render, scan, scan-render, env, customer, start, lossy}
use go_order_service.Examples.Worlds.{first_event, after_first}

abbrev first_message : OutboxMessage
first_message = record {
  id = "11111";
  aggregate_type = "order";
  aggregate_id = "111";
  event_type = "order.created";
  payload = encoded first_event.payload;
}

abbrev first_value : Bytes
first_value = encoded (marshal_message first_message)

abbrev first_notice : Notice
first_notice = record { event_id = "11111"; event_type = "order.created"; recipient = customer }

first_notice_lem : validate env first_value ≡ some first_notice
unfolding validate unmarshal_message marshal_message read_fields read_field same_name
    unmarshal_user_id read_user_fields read_user_field order_created_json scan
first_notice_lem = refl

abbrev delivered : World
delivered = record {
  db = record after_first.db {
    processed_events =
        record { event_id = 4; consumer_name = "notification-consumer"; processed_at = 9 } ∷ [];
    notification_deliveries =
        record {
          id = 11;
          event_id = 4;
          channel = "email";
          recipient = customer;
          status = "sent";
          attempt = 0;
          last_error = none;
          created_at = 9;
          updated_at = 9;
        }
        ∷ [];
  };
  tx = none;
  ticks = 14;
  metrics = consumer_events_processed "order.created" ∷ after_first.metrics;
  published = [];
}

delivered_lem : handle env first_value after_first ≡ (ok tt, delivered)
unfolding handle validate unmarshal_message marshal_message read_fields read_field same_name
    unmarshal_user_id read_user_fields read_user_field order_created_json scan render process
    process_body ◌>>=◌ attempt with_tx new_uuid query scan_uuid
    ConsumptionStore.try_create_processed_event ConsumptionQueries.try_create_processed_event
    ConsumptionStore.create_notification_delivery ConsumptionQueries.create_notification_delivery
delivered_lem = refl

handle-Outcome_example :
    Ends
      (λ _ after. HandleOutcome lossy first_value after_first.db after)
      (λ e after.
        Rejected lossy first_value after_first.db e after
        ⊎ Atomic {A = Unit} after_first.db
            (λ _ db. HandleOutcome lossy first_value after_first.db db)
            e
            after)
      (handle lossy first_value after_first)
handle-Outcome_example = handle-Outcome lossy first_value after_first

handle_twice_example :
    ((handle env first_value delivered).0 ≡ ok tt)
    × ((handle env first_value delivered).1.db ≡ delivered.db)
handle_twice_example =
    handle_twice env first_value after_first delivered refl refl refl delivered_lem

handle-invalid_example :
    ((handle env malformed after_first).0 ≡ err invalid_message) ↔ (validate env malformed ≡ none)
handle-invalid_example = handle-invalid env malformed after_first

abbrev first_record : Record
first_record = record {
  topic = "order.events.v1";
  partition = pos 0;
  offset = pos 41;
  key = encoded (str "111");
  value = first_value;
}

-- The record comes, its offset is not committed, and it comes again after an error of the broker.
abbrev turns : List Turn
turns =
    record { stopped = false; event = message first_record; stopped_after = true; commit = none }
    ∷ record {
      stopped = false;
      event = failure false "broker down";
      stopped_after = false;
      commit = none;
    }
    ∷ record { stopped = false; event = message first_record; stopped_after = false; commit = none }
    ∷ []

abbrev session : Session
session = record { world = after_first; committed = [] }

run-IsSafe_example : IsSafe env (run env "order.events.v1" none turns session).1
run-IsSafe_example =
    run-IsSafe env "order.events.v1" none turns session
      (record { effective = tt; inbox = λ id. refl })

unmarshal-marshal_example :
    unmarshal_message (encoded (marshal_message first_message)) ≡ some first_message
unmarshal-marshal_example = unmarshal-marshal first_message first_event.payload refl

-- A parser that accepts a UUID in braces, and a scanner that does not.
unfoldable strict_scan : String → Option ℕ
strict_scan s = if s == "{1}" then none else scan s

unfoldable lax_parse : String → Option ℕ
lax_parse s = if s == "{1}" then some 0 else scan s

render-unbraced : (u : ℕ) → (render "1" u == "{1}") ≡ false
unfolding render
render-unbraced zero = refl
render-unbraced (suc u) = elim (Bool-cases (render "1" (suc u) == "{1}")) [
  | inl braced ↦ absurd (distinct (render "1" u) ((eq_iff (render "1" (suc u)) "{1}").0 braced))
  | inr plain ↦ plain
]
  where
    distinct : (s : String) → String.◌∷◌ "1" s ≡ "{1}" → ⊥
    distinct s e = cc

strict_scan-render : (u : ℕ) → strict_scan (render "1" u) ≡ some u
unfolding strict_scan
strict_scan-render u = rw (render-unbraced u, scan-render "1" u) refl

lax_parse-render : (u : ℕ) → lax_parse (render "1" u) ≡ some u
unfolding lax_parse
lax_parse-render u = rw (render-unbraced u, scan-render "1" u) refl

lax_parse-nil : lax_parse "" ≡ none
unfolding lax_parse scan
lax_parse-nil = refl

abbrev braced_env : Env
braced_env = record env {
  scan = strict_scan;
  render = render "1";
  parse = lax_parse;
  scan-render = strict_scan-render;
  parse-render = lax_parse-render;
  parse-nil = lax_parse-nil;
}

-- An event id in braces.
abbrev braced_message : OutboxMessage
braced_message = record first_message { id = "{1}" }

abbrev braced_notice : Notice
braced_notice = record first_notice { event_id = "{1}" }

abbrev braced_record : Record
braced_record = record {
  topic = "order.events.v1";
  partition = pos 0;
  offset = pos 5;
  key = malformed;
  value = encoded (marshal_message braced_message);
}

abbrev braced_turn : Turn
braced_turn = record {
  stopped = false;
  event = message braced_record;
  stopped_after = false;
  commit = none;
}

poll_loop_stuck_example :
    poll_loop braced_env (braced_turn ∷ []) (record { world = start; committed = [] })
    ≡ (some (err bad_uuid), record { world = record (tick start) { tx = none }; committed = [] })
unfolding validate unmarshal_message marshal_message read_fields read_field same_name
    unmarshal_user_id read_user_fields read_user_field order_created_json scan strict_scan lax_parse
poll_loop_stuck_example =
    poll_loop_stuck braced_env braced_record braced_notice braced_turn []
      (record { world = start; committed = [] }) refl refl refl refl refl

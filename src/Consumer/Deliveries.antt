-- ===== src/Consumer/Deliveries.antt =====
-- How the handling of a message ends.
use mathlib.Core.Path.{subst}
use go_order_service.Prelude.{
  ℕ, ◌≡◌, refl, ◌⊎◌, inl, inr, Bool, true, false, ◌&&◌, Option, none, some, ◌∷◌, arith, ◌==◌,
  nat_eq, string_eq, ◌∙◌,
}
use go_order_service.Prelude.Lists.{contains}
use go_order_service.Encoding.{Bytes}
use go_order_service.Schema.{Db, ProcessedEvent, NotificationDelivery}
use go_order_service.Runtime.{
  Error, no_rows, invalid_message, Result, ok, err, Env, World, ◌>>=◌, query, scan_uuid,
}
use go_order_service.Runtime.Ends.{
  Ends, Any, Atomic, Either, Ends-bind, Ends-attempt, Ends-pure, Ends-with_tx, Ends-weaken,
  Ends-new_uuid,
}
use go_order_service.Sqlc.Consumption as ConsumptionQueries
use go_order_service.Store.Consumption as ConsumptionStore
use go_order_service.Consumer.{
  Notice, consumer_name, status_sent, channel_email, validate, deliver, process_body, count_event,
  process, answer, handle,
}

abbrev pub is_processed : ℕ → Db → Bool
is_processed id db =
    contains (λ e. e.event_id == id && e.consumer_name == consumer_name) db.processed_events

-- The event is recorded as processed, with one delivery to its recipient.
pub record Delivered (env : Env) (n : Notice) (before after : Db) : Type 0 where
  pub event : ProcessedEvent
  pub delivery : NotificationDelivery
  pub stores : after ≡ record before {
    processed_events = event ∷ before.processed_events;
    notification_deliveries = delivery ∷ before.notification_deliveries;
  }
  pub scanned : env.scan n.event_id ≡ some event.event_id
  pub consumer : event.consumer_name ≡ consumer_name
  pub first : is_processed event.event_id before ≡ false
  pub delivers : delivery.event_id ≡ event.event_id
  pub recipient : delivery.recipient ≡ n.recipient
  pub sent : delivery.status ≡ status_sent
  pub channel : delivery.channel ≡ channel_email

-- The event was processed before, and nothing changes.
pub record Repeated (env : Env) (n : Notice) (before after : Db) : Type 0 where
  pub event_id : ℕ
  pub scanned : env.scan n.event_id ≡ some event_id
  pub processed : is_processed event_id before ≡ true
  pub unchanged : after ≡ before

-- By what the transaction returns.
abbrev pub Processed : Env → Notice → Db → Bool → Db → Type 0
Processed env n before true after = Repeated env n before after
Processed env n before false after = Delivered env n before after

-- The insert into `processed_events`.
pub record Marked (env : Env) (n : Notice) (before : Db) (e : ProcessedEvent) (after : Db)
    : Type 0 where
  pub stores : after ≡ record before { processed_events = e ∷ before.processed_events }
  pub scanned : env.scan n.event_id ≡ some e.event_id
  pub consumer : e.consumer_name ≡ consumer_name
  pub first : is_processed e.event_id before ≡ false

abbrev Unmarked : Env → Notice → Db → Error → Db → Type 0
Unmarked env n before no_rows after = Repeated env n before after
Unmarked env n before _ after = Unit

record Inserted (env : Env) (p : ConsumptionStore.CreateNotificationDeliveryParams) (before : Db)
    (d : NotificationDelivery) (after : Db) : Type 0 where
  stores : after ≡ record before { notification_deliveries = d ∷ before.notification_deliveries }
  event : env.scan p.event_id ≡ some d.event_id
  recipient : d.recipient ≡ p.recipient
  status : d.status ≡ p.status
  channel : d.channel ≡ p.channel

module _ (env : Env) (n : Notice) where
  marks :
      (w : World)
      → Ends
          (Marked env n w.db)
          (Unmarked env n w.db)
          (ConsumptionStore.try_create_processed_event env n.event_id consumer_name w)
  unfolding ConsumptionStore.try_create_processed_event ◌>>=◌ scan_uuid query
      ConsumptionQueries.try_create_processed_event
  marks w = ground arith

  delivers :
      (p : ConsumptionStore.CreateNotificationDeliveryParams) (w : World)
      → Ends (Inserted env p w.db) Any (ConsumptionStore.create_notification_delivery env p w)
  unfolding ◌>>=◌ scan_uuid query ConsumptionStore.create_notification_delivery
      ConsumptionQueries.create_notification_delivery
  delivers p w = ground arith

  deliver-Processed :
      (before : Db) (r : Result ProcessedEvent) (w : World)
      → Either (Marked env n before) (Unmarked env n before) r w.db
      → Ends (Processed env n before) Any (deliver env n r w)
  deliver-Processed before (ok e) w h = Ends-bind _ _ w (Ends-new_uuid env w) λ id v same.
      Ends-bind _ _ v (delivers _ v) λ d u made. Ends-pure _ u (record {
        event = e;
        delivery = d;
        stores = made.stores ∙ ground arith;
        scanned = h.scanned;
        consumer = h.consumer;
        first = h.first;
        delivers = ground arith;
        recipient = made.recipient;
        sent = made.status;
        channel = made.channel;
      })
  deliver-Processed before (err no_rows) w h = Ends-pure _ w h
  deliver-Processed before (err x) w h = record { as_stated = tt }

  process_body-Processed : (w : World) → Ends (Processed env n w.db) Any (process_body env n w)
  unfolding process_body
  process_body-Processed w =
      Ends-bind _ _ w (Ends-attempt _ w (marks w)) λ r v h. deliver-Processed w.db r v h

-- A valid message: delivered now, or before.
abbrev pub Settled : Env → Notice → Db → Db → Type 0
Settled env n before after = Delivered env n before after ⊎ Repeated env n before after

abbrev pub HandleOutcome : Env → Bytes → Db → Db → Type 0
HandleOutcome env payload before after =
    (n : Notice) × (validate env payload ≡ some n) × Settled env n before after

abbrev pub Rejected : Env → Bytes → Db → Error → Db → Type 0
Rejected env payload before e after =
    (e ≡ invalid_message) × (validate env payload ≡ none) × (after ≡ before)

module _ (env : Env) where
  Processed-Settled :
      (n : Notice) (before : Db) (b : Bool) (after : Db)
      → Processed env n before b after
      → Settled env n before after
  Processed-Settled n before true after h = inr h
  Processed-Settled n before false after h = inl h

  count_event-Ends :
      {E : Error → Db → Type 0} (n : Notice) (b : Bool) (before : Db) (w : World)
      → Settled env n before w.db
      → Ends (λ _ db. Settled env n before db) E (count_event env n b w)
  count_event-Ends n true before w h = Ends-pure _ _ h
  count_event-Ends n false before w h = Ends-pure _ _ h

  process-Settled :
      (n : Notice) (w : World)
      → Ends
          (λ _ db. Settled env n w.db db)
          (Atomic {A = Bool} w.db (λ _ db. Settled env n w.db db))
          (process env n w)
  unfolding process
  process-Settled n w =
      Ends-bind _ _ w
        (Ends-with_tx env _ w λ v e.
          subst (λ db. Ends (λ _ after. Settled env n db after) Any (process_body env n v)) e
            (Ends-weaken _ (process_body-Processed env n v)
              (λ b u h. Processed-Settled n v.db b u.db h) (λ _ _ _. tt)))
        λ b v h. count_event-Ends n b w.db v h

  answer-Outcome :
      (payload : Bytes) (w : World) (o : Option Notice)
      → validate env payload ≡ o
      → Ends
          (λ _ after. HandleOutcome env payload w.db after)
          (λ e after.
            Rejected env payload w.db e after
            ⊎ Atomic {A = Unit} w.db (λ _ db. HandleOutcome env payload w.db db) e after)
          (answer env o w)
  answer-Outcome payload w none invalid = record { as_stated = inl (refl, invalid, refl) }
  answer-Outcome payload w (some n) valid =
      Ends-weaken _ (process-Settled n w) (λ _ _ h. (n, valid, h)) λ e v h. inr (lost e v h)
    where
      lost :
          (e : Error) (v : World)
          → Atomic {A = Bool} w.db (λ _ db. Settled env n w.db db) e v.db
          → Atomic {A = Unit} w.db (λ _ db. HandleOutcome env payload w.db db) e v.db
      lost e v (inl same) = inl same
      lost e v (inr (x, _, h)) = inr (x, tt, (n, valid, h))

  -- Whatever fails on the way, the handling of a message does one of four things. It delivers the
  -- event to its recipient and records it as processed; or it finds that it was processed before; or
  -- it says that the message is invalid; or it fails. In the last three cases the database is as it
  -- was, unless only the answer of the commit was lost.
  pub handle-Outcome :
      (payload : Bytes) (w : World)
      → Ends
          (λ _ after. HandleOutcome env payload w.db after)
          (λ e after.
            Rejected env payload w.db e after
            ⊎ Atomic {A = Unit} w.db (λ _ db. HandleOutcome env payload w.db db) e after)
          (handle env payload w)
  unfolding handle
  handle-Outcome payload w = answer-Outcome payload w (validate env payload) refl

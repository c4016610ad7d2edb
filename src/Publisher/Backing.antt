-- ===== src/Publisher/Backing.antt =====
-- The events that are marked as published and their messages on Kafka: the messages.
pub mod Batch
use mathlib.Core.Path.{subst}
use go_order_service.Prelude.{
  ℕ, suc, String, ◌≡◌, refl, sym, ◌∙◌, Bool, true, false, Option, none, some, List, [], ◌∷◌, arith,
  ◌==◌, nat_eq, string_eq, eq_iff, if◌then◌else◌,
}
use go_order_service.Prelude.Int.{ℤ}
use go_order_service.Prelude.Lists.{All, All-map, All-update, contains, update, find}
use go_order_service.Encoding.{Json, encoded}
use go_order_service.Schema.{Db, OutboxEvent}
use go_order_service.Runtime.{
  Error, Published, DeliveryOutcome, delivered, undelivered, unconfirmed, CommitOutcome, committed,
  rolled_back, answer_lost, ok, err, unavailable, Result, Env, World, tick, Action, continue, ◌>>=◌,
  query, scan_uuid, conclude, settle, with_tx,
}
use go_order_service.Runtime.Ends.{Ends, Any, Ends-bind, Ends-pure, Ends-always, Ends-weaken}
use go_order_service.Sqlc.Outbox as OutboxQueries
use go_order_service.Sqlc.Outbox.{is_unpublished, published_row, failed_row}
use go_order_service.Store.Outbox as OutboxStore
use go_order_service.Store.Orders.{text_or_null}
use go_order_service.Messages.{OutboxMessage, marshal_message, unmarshal_message}
use go_order_service.Messages.Decoding.{unmarshal-marshal}
use go_order_service.Publisher.{
  Config, message_of, publish, hand_over, produce, mark_event, publish_event, publish_events,
  publish_body, publish_batch,
}
use go_order_service.Publisher.Stories.{
  publishes, mark_outbox_event_published-MarkedPublished, mark_outbox_event_failed-MarkedFailed,
}

module _ (env : Env) where
  -- The consumer reads the event's id in the message.
  abbrev pub reads : ℕ → Option OutboxMessage → Bool
  reads id none = false
  reads id (some m) = m.id == env.render id

  abbrev pub names : ℕ → Published → Bool
  names id m = reads id (unmarshal_message (encoded m.value))

  abbrev pub is_announced : ℕ → List Published → Bool
  is_announced id ms = contains (names id) ms

  -- A row that is marked as published has its message among `ms`.
  abbrev pub Backed : List Published → OutboxEvent → Type 0
  Backed ms r = is_unpublished r ≡ false → is_announced r.id ms ≡ true

  abbrev pub IsBacked : World → Type 0
  IsBacked w = All (Backed w.published) w.db.outbox_events

  -- The messages on Kafka stay there.
  abbrev pub Grows : World → World → Type 0
  Grows w w' = (id : ℕ) → is_announced id w.published ≡ true → is_announced id w'.published ≡ true

  -- What a step of the batch keeps.
  abbrev pub Keeps : World → World → Type 0
  Keeps w w' = (IsBacked w → IsBacked w') × Grows w w'

  pub Keeps-trans : (a b c : World) → Keeps a b → Keeps b c → Keeps a c
  Keeps-trans a b c (h, g) (k, l) = (λ x. k (h x), λ id x. l id (g id x))

  -- Rows stay backed while the messages grow.
  pub grown :
      (before : Db) (w w' : World)
      → Grows w w'
      → All (Backed w.published) before.outbox_events
      → All (Backed w'.published) before.outbox_events
  grown before w w' g h = All-map before.outbox_events (λ r b p. g r.id (b p)) h

  pub names-message_of :
      (e : OutboxEvent) (topic key : String)
      → names e.id (record { topic = topic; key = key; value = marshal_message (message_of env e) })
        ≡ true
  names-message_of e topic key =
      subst (λ o. reads e.id o ≡ true) (sym (unmarshal-marshal (message_of env e) e.payload refl))
        ((eq_iff (env.render e.id) (env.render e.id)).1 refl)

  -- What the producer's answer promises of the messages.
  abbrev pub Promised : ℕ → Option String → World → Type 0
  Promised id none w = is_announced id w.published ≡ true
  Promised id (some text) w = Unit

  -- After the message of the row `e` was given to Kafka.
  pub record Handed (w : World) (e : OutboxEvent) (r : Result (Option String) × World)
      : Type 0 where
    pub same : r.1.db ≡ w.db
    pub grows : Grows w r.1
    pub promised : (answer : Option String) → r.0 ≡ ok answer → Promised e.id answer r.1

  pub Grows-cons : (m : Published) (w w' : World) → w'.published ≡ m ∷ w.published → Grows w w'
  Grows-cons m w w' e id h = rw e (ground arith)

  pub answered : (w : World) (e : OutboxEvent) (text : String) → Handed w e (ok (some text), w)
  answered w e text = record {
    same = refl;
    grows = λ id h. h;
    promised = λ answer given. ground arith;
  }

  -- Given to Kafka under any topic and key.
  pub produce-Handed :
      (e : OutboxEvent) (topic key : String) (d : DeliveryOutcome) (w : World)
      → Handed w e (
          produce
            (record { topic = topic; key = key; value = marshal_message (message_of env e) })
            d
            w)
  produce-Handed e topic key delivered w = record {
    same = refl;
    grows =
        Grows-cons _ w
          (record w {
            published =
                record { topic = topic; key = key; value = marshal_message (message_of env e) }
                ∷ w.published;
          })
          refl;
    promised = λ answer given. ground (arith, names-message_of e topic key);
  }
  produce-Handed e topic key (undelivered text) w = record {
    same = refl;
    grows = λ id h. h;
    promised = λ answer given. ground arith;
  }
  produce-Handed e topic key (unconfirmed text) w = record {
    same = refl;
    grows =
        Grows-cons _ w
          (record w {
            published =
                record { topic = topic; key = key; value = marshal_message (message_of env e) }
                ∷ w.published;
          })
          refl;
    promised = λ answer given. ground arith;
  }

  pub Handed-if :
      (w : World) (e : OutboxEvent) (b : Bool) (m n : Action (Option String))
      → Handed w e (m w)
      → Handed w e (n w)
      → Handed w e ((if b then m else n) w)
  Handed-if w e true m n h k = h
  Handed-if w e false m n h k = k

  publish-Handed :
      (e : OutboxEvent) (topic : String) (w : World)
      → Handed w e
          (publish env topic (env.render e.partition_key) (marshal_message (message_of env e)) w)
  unfolding publish
  publish-Handed e topic w = Handed-if w e (topic == "") _ _ (answered w e _) (
      Handed-if w e (env.render e.partition_key == "") _ _ (answered w e _)
        (produce-Handed e topic (env.render e.partition_key) (env.delivery w.ticks) w))

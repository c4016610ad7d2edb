-- ===== src/Publisher/Stories.antt =====
-- What a batch of the publisher does to the tables.
use mathlib.Core.Path.{subst}
use go_order_service.Prelude.{
  ℕ, suc, String, ◌≡◌, refl, ◌∙◌, Bool, false, ◌&&◌, Option, none, some, List, [], ◌∷◌, map, arith,
  ◌==◌, nat_eq,
}
use go_order_service.Prelude.Lists.{update, count-update}
use go_order_service.Schema.{Db, OutboxEvent, EventType, event_type_eq}
use go_order_service.Prelude.Int.{ℤ}
use go_order_service.Prelude.{string_eq}
use go_order_service.Encoding.{Json}
use go_order_service.Runtime.{
  Error, Published, DeliveryOutcome, delivered, undelivered, unconfirmed, Env, World, ◌>>=◌, query,
  scan_uuid,
}
use go_order_service.Runtime.Ends.{
  Ends, Any, Atomic, Ends-bind, Ends-pure, Ends-with_tx, Ends-always, Atomic-always, Ends-weaken,
  Ends-if,
}
use go_order_service.Sqlc.Outbox as OutboxQueries
use go_order_service.Sqlc.Outbox.{published_row, failed_row, is_unpublished}
use go_order_service.Store.Outbox as OutboxStore
use go_order_service.Store.Orders.{text_or_null}
use go_order_service.Orders.Ledger.{IsLedger, events_of}
use go_order_service.Publisher.{
  Config, publish, produce, mark_event, publish_event, publish_events, publish_body, publish_batch,
}

-- What an event says, without what the publisher writes to its row.
abbrev pub content : OutboxEvent → OutboxEvent
content e = record e { published_at = none; attempt = 0; last_error = none }

-- Only the outbox differs, and it has as many events of each type in each partition, and the same
-- events in the same rows.
pub record SameStory (before after : Db) : Type 0 where
  pub elsewhere : after ≡ record before { outbox_events = after.outbox_events }
  pub events : (id : ℕ) (type : EventType) → events_of id type after ≡ events_of id type before
  pub contents : map content after.outbox_events ≡ map content before.outbox_events

map-update :
    (p : OutboxEvent → Bool) (f : OutboxEvent → OutboxEvent) (rows : List OutboxEvent)
    → ((e : OutboxEvent) → content (f e) ≡ content e)
    → map content (update p f rows) ≡ map content rows
map-update p f [] h = refl
map-update p f (e ∷ rows) h = ground (arith, h e, map-update p f rows h)

SameStory-refl : (before after : Db) → after ≡ before → SameStory before after
SameStory-refl before after e = record {
  elsewhere = ground arith;
  events = λ id type. rw e refl;
  contents = rw e refl;
}

SameStory-trans : (a b c : Db) → SameStory a b → SameStory b c → SameStory a c
SameStory-trans a b c h k = record {
  elsewhere = ground (arith, h.elsewhere, k.elsewhere);
  events = λ id type. k.events id type ∙ h.events id type;
  contents = k.contents ∙ h.contents;
}

SameStory-update :
    (before after : Db) (p : OutboxEvent → Bool) (f : OutboxEvent → OutboxEvent)
    → after ≡ record before { outbox_events = update p f before.outbox_events }
    → ((e : OutboxEvent) → content (f e) ≡ content e)
    → SameStory before after
SameStory-update before after p f stores same = record {
  elsewhere = ground arith;
  events = λ id t. rw stores (
      count-update p (λ e. e.partition_key == id && e.event_type == t) f before.outbox_events
        λ e. ground (arith, same e));
  contents = rw stores (map-update p f before.outbox_events same);
}

-- The ledger sees no difference.
pub SameStory-IsLedger :
    (before after : Db) → SameStory before after → IsLedger before → IsLedger after
SameStory-IsLedger before after s h = record {
  charged = λ id. rw s.elsewhere (h.charged id);
  created_events = λ id. s.events id EventType.order_created ∙ rw s.elsewhere (h.created_events id);
  success_events =
      λ id. s.events id EventType.payment_succeeded ∙ rw s.elsewhere (h.success_events id);
  failure_events =
      λ id. s.events id EventType.payment_failed ∙ rw s.elsewhere (h.failure_events id);
  cancel_events = λ id. s.events id EventType.order_cancelled ∙ rw s.elsewhere (h.cancel_events id);
  positive = λ id. rw s.elsewhere (h.positive id);
}

-- The row with an id is marked as published, or as failed once more.
pub record MarkedPublished (id : ℕ) (before : Db) (e : OutboxEvent) (after : Db) : Type 0 where
  pub published : is_unpublished e ≡ false
  pub stores : after ≡ record before {
    outbox_events =
        update
          (λ r. r.id == id)
          (λ r. record r { published_at = e.published_at; last_error = none })
          before.outbox_events;
  }

pub record MarkedFailed (id : ℕ) (text : String) (before : Db) (e : OutboxEvent) (after : Db)
    : Type 0 where
  pub stores : after ≡ record before {
    outbox_events =
        update
          (λ r. r.id == id)
          (λ r. record r { attempt = suc r.attempt; last_error = text_or_null text })
          before.outbox_events;
  }

module _ (env : Env) where
  pub mark_outbox_event_published-MarkedPublished :
      (text : String) (id : ℕ) (w : World)
      → env.scan text ≡ some id
      → Ends (MarkedPublished id w.db) Any (OutboxStore.mark_outbox_event_published env text w)
  unfolding OutboxStore.mark_outbox_event_published ◌>>=◌ scan_uuid query
      OutboxQueries.mark_outbox_event_published
  mark_outbox_event_published-MarkedPublished text id w scanned = ground arith

  pub mark_outbox_event_failed-MarkedFailed :
      (text reason : String) (id : ℕ) (w : World)
      → env.scan text ≡ some id
      → Ends
          (MarkedFailed id reason w.db)
          Any
          (OutboxStore.mark_outbox_event_failed env text reason w)
  unfolding OutboxStore.mark_outbox_event_failed ◌>>=◌ scan_uuid query
      OutboxQueries.mark_outbox_event_failed
  mark_outbox_event_failed-MarkedFailed text reason id w scanned = ground arith

  claims :
      (limit : ℤ) (w : World)
      → Ends (λ _ db. SameStory w.db db) Any (OutboxStore.claim_outbox_events env limit w)
  unfolding OutboxStore.claim_outbox_events query OutboxQueries.claim_outbox_events
  claims limit w =
      Ends-weaken _ (claimed limit w) (λ _ _ same. SameStory-refl _ _ same) (λ _ _ _. tt)
    where
      claimed :
          (l : ℤ) (v : World)
          → Ends (λ _ db. db ≡ v.db) Any (OutboxStore.claim_outbox_events env l v)
      claimed l v = ground arith

  marks :
      (e : OutboxEvent) (r : Option String) (w : World)
      → Ends (λ _ db. SameStory w.db db) Any (mark_event env e r w)
  marks e none w =
      Ends-bind _ _ w (mark_outbox_event_published-MarkedPublished _ e.id w (env.scan-render e.id))
        λ x v m. Ends-pure _ _ (
          SameStory-update w.db v.db (λ r. r.id == e.id)
            (λ r. record r { published_at = x.published_at; last_error = none }) m.stores
            (λ _. refl))
  marks e (some text) w =
      Ends-bind _ _ w (mark_outbox_event_failed-MarkedFailed _ text e.id w (env.scan-render e.id))
        λ x v m. Ends-pure _ _ (
          SameStory-update w.db v.db (λ r. r.id == e.id)
            (λ r. record r { attempt = suc r.attempt; last_error = text_or_null text }) m.stores
            (λ _. refl))

  produces :
      {E : Error → Db → Type 0} (m : Published) (d : DeliveryOutcome) (w : World)
      → Ends (λ _ db. db ≡ w.db) E (produce m d w)
  produces m delivered w = record { as_stated = refl }
  produces m (undelivered text) w = record { as_stated = refl }
  produces m (unconfirmed text) w = record { as_stated = refl }

  -- Giving a message to Kafka touches no table.
  pub publishes :
      {E : Error → Db → Type 0} (topic key : String) (payload : Json) (w : World)
      → Ends (λ _ db. db ≡ w.db) E (publish env topic key payload w)
  unfolding publish
  publishes topic key payload w =
      Ends-if (topic == "") _ _ w (λ _. record { as_stated = refl })
        λ _.
          Ends-if (key == "") _ _ w (λ _. record { as_stated = refl })
            λ _. produces _ (env.delivery w.ticks) w

  module _ (config : Config) where
    publish_event-SameStory :
        (e : OutboxEvent) (w : World)
        → Ends (λ _ db. SameStory w.db db) Any (publish_event env config e w)
    unfolding publish_event
    publish_event-SameStory e w = Ends-bind _ _ w (publishes _ _ _ w) λ r v same.
        subst (λ db. Ends (λ _ after. SameStory db after) Any (mark_event env e r v)) same
          (marks e r v)

    publish_events-SameStory :
        (es : List OutboxEvent) (w : World)
        → Ends (λ _ db. SameStory w.db db) Any (publish_events env config es w)
    unfolding publish_events
    publish_events-SameStory [] w = Ends-pure _ w (SameStory-refl _ _ refl)
    publish_events-SameStory (e ∷ es) w = Ends-bind _ _ w (publish_event-SameStory e w) λ _ v h.
        Ends-weaken _ (publish_events-SameStory es v) (λ _ u k. SameStory-trans w.db v.db u.db h k)
          (λ _ _ _. tt)

    -- A batch changes only the outbox, and there neither the number of the events nor what they say,
    -- whichever messages Kafka refuses; or it fails, and the database is as it was, unless only the
    -- answer of the commit was lost.
    pub publish_batch-SameStory :
        (w : World)
        → Ends
            (λ _ db. SameStory w.db db)
            (Atomic {A = Unit} w.db (λ _ db. SameStory w.db db))
            (publish_batch env config w)
    unfolding publish_batch publish_body
    publish_batch-SameStory w = Ends-with_tx env _ w λ v same.
        subst (λ db. Ends (λ _ after. SameStory db after) Any (publish_body env config v)) same
          (Ends-bind _ _ v (claims config.batch_size v) λ es u h.
            Ends-weaken _ (publish_events-SameStory es u)
              (λ _ x k. SameStory-trans v.db u.db x.db h k) (λ _ _ _. tt))

    -- A batch, failing or not, keeps the invariant of orders, payments and events that the calls of
    -- the order service keep.
    pub publish_batch-IsLedger :
        (w : World) → IsLedger w.db → IsLedger (publish_batch env config w).1.db
    publish_batch-IsLedger w h =
        Ends-always IsLedger _ (publish_batch-SameStory w)
          (λ _ db s. SameStory-IsLedger w.db db s h)
          (Atomic-always IsLedger h λ _ db s. SameStory-IsLedger w.db db s h)

-- ===== src/Publisher/Progress.antt =====
-- `OutboxPublisher.PublishBatch` while nothing outside fails.
use go_order_service.Prelude.{
  ℕ, suc, ◌≡◌, refl, true, false, some, List, [], ◌∷◌, arith, ◌==◌, ◌&&◌, nat_eq, string_eq,
  or_else,
}
use go_order_service.Prelude.Int.{ℤ, pos}
use go_order_service.Prelude.Lists.{All, All-map, All-selected, All-take, contains, update}
use go_order_service.Prelude.Sorting.{All-sort_by}
use go_order_service.Schema.{Db, OutboxEvent}
use go_order_service.Runtime.{
  Published, delivered, ok, Result, Env, World, tick, ◌>>=◌, query, scan_uuid, with_tx,
  outbox_events_published,
}
use go_order_service.Runtime.Reachable.{Reachable}
use go_order_service.Runtime.Uuids.{render-ne-nil}
use go_order_service.Sqlc.Outbox as OutboxQueries
use go_order_service.Sqlc.Outbox.{is_unpublished, is_older, published_row}
use go_order_service.Store.Outbox as OutboxStore
use go_order_service.Publisher.{
  Config, publish, publish_event, publish_events, publish_body, publish_batch,
}
use go_order_service.Publisher.Order.{claimed, announcement}

-- A row with the id of the event is there.
abbrev Held : Db → OutboxEvent → Type 0
Held db e = contains (λ r. r.id == e.id) db.outbox_events ≡ true

-- No row with the id of the event is unpublished.
abbrev pub Marked : Db → OutboxEvent → Type 0
Marked db e = contains (λ r. r.id == e.id && is_unpublished r) db.outbox_events ≡ false

module _ (id x t : ℕ) where
  contains-update :
      (rows : List OutboxEvent)
      → contains (λ r. r.id == x) (update (λ r. r.id == id) (published_row t) rows)
        ≡ contains (λ r. r.id == x) rows
  contains-update [] = refl
  contains-update (r ∷ rows) = ground (arith, contains-update rows)

  update-marks :
      (rows : List OutboxEvent)
      → contains
          (λ r. r.id == id && is_unpublished r)
          (update (λ r. r.id == id) (published_row t) rows)
        ≡ false
  update-marks [] = refl
  update-marks (r ∷ rows) = ground (arith, update-marks rows)

  update-keeps :
      (rows : List OutboxEvent)
      → contains (λ r. r.id == x && is_unpublished r) rows ≡ false
      → contains
          (λ r. r.id == x && is_unpublished r)
          (update (λ r. r.id == id) (published_row t) rows)
        ≡ false
  update-keeps [] h = refl
  update-keeps (r ∷ rows) h = ground (arith, update-keeps rows)

All-held : (rows : List OutboxEvent) → All (λ e. contains (λ r. r.id == e.id) rows ≡ true) rows
All-held [] = tt
All-held (e ∷ rows) = (ground arith, All-map rows (λ x h. ground arith) (All-held rows))

module _ (env : Env) (config : Config) where
  -- After an event was sent and marked.
  sent : OutboxEvent → World → World
  sent e w = record w {
    db = record w.db {
      outbox_events =
          update (λ r. r.id == e.id) (published_row (or_else w.tx (env.now (suc w.ticks))))
            w.db.outbox_events;
    };
    ticks = suc (suc w.ticks);
    metrics = outbox_events_published e.event_type ∷ w.metrics;
    published = announcement env config e ∷ w.published;
  }

  sent_all : List OutboxEvent → World → World
  sent_all [] w = w
  sent_all (e ∷ es) w = sent_all es (sent e w)

  -- The messages of the events, one after another.
  abbrev pub announced : List OutboxEvent → List Published → List Published
  announced [] ms = ms
  announced (e ∷ es) ms = announced es (announcement env config e ∷ ms)

  sent_all-published :
      (es : List OutboxEvent) (w : World) → (sent_all es w).published ≡ announced es w.published
  unfolding sent sent_all
  sent_all-published [] w = refl
  sent_all-published (e ∷ es) w = sent_all-published es (sent e w)

  sent_all-keeps :
      (es : List OutboxEvent) (e : OutboxEvent) (w : World)
      → Marked w.db e
      → Marked (sent_all es w).db e
  unfolding sent sent_all
  sent_all-keeps [] e w h = h
  sent_all-keeps (x ∷ es) e w h =
      sent_all-keeps es e (sent x w) (update-keeps x.id e.id _ w.db.outbox_events h)

  sent_all-Marked : (es : List OutboxEvent) (w : World) → All (Marked (sent_all es w).db) es
  unfolding sent sent_all
  sent_all-Marked [] w = tt
  sent_all-Marked (e ∷ es) w = (
    sent_all-keeps es e (sent e w) (update-marks e.id e.id _ w.db.outbox_events),
    sent_all-Marked es (sent e w),
  )

  -- The messages of the events are sent after the others, and no event of them is left unpublished.
  pub record PublishesAll (es : List OutboxEvent) (w : World) (p : Result Unit × World)
      : Type 0 where
    pub answers : p.0 ≡ ok tt
    pub messages : p.1.published ≡ announced es w.published
    pub marked : All (Marked p.1.db) es

  module _ (good : Reachable env) (delivers : (n : ℕ) → env.delivery n ≡ delivered)
      (named : (config.topic == "") ≡ false) where
    publish_event-sent :
        (e : OutboxEvent) (w : World)
        → Held w.db e
        → publish_event env config e w ≡ (ok tt, sent e w)
    unfolding publish_event publish ◌>>=◌ query scan_uuid OutboxStore.mark_outbox_event_published
        OutboxQueries.mark_outbox_event_published sent
    publish_event-sent e w held = ground (
      arith,
      render-ne-nil env e.partition_key,
      named,
      delivers w.ticks,
      env.scan-render e.id,
      good.answers (suc w.ticks),
    )

    publish_events-sent :
        (es : List OutboxEvent) (w : World)
        → All (Held w.db) es
        → publish_events env config es w ≡ (ok tt, sent_all es w)
    unfolding publish_events ◌>>=◌ sent_all sent
    publish_events-sent [] w h = refl
    publish_events-sent (e ∷ es) w (held, h) =
        rw (publish_event-sent e w held)
          (publish_events-sent es (sent e w) (All-map es (λ x there. still x there) h))
      where
        still : (x : OutboxEvent) → Held w.db x → Held (sent e w).db x
        still x there = rw (contains-update e.id x.id _ w.db.outbox_events) there

    claims :
        (limit : ℤ) (size : ℕ) (w : World)
        → limit ≡ pos size
        → OutboxStore.claim_outbox_events env limit w
          ≡ (ok (claimed (pos size) w.db.outbox_events), tick w)
    unfolding OutboxStore.claim_outbox_events query OutboxQueries.claim_outbox_events
    claims limit size w sized = rw (sized, good.answers w.ticks) refl

    claimed-Held : (size : ℕ) (db : Db) → All (Held db) (claimed (pos size) db.outbox_events)
    claimed-Held size db = All-take (Held db) size _ (
        All-sort_by is_older (Held db) _
          (All-selected (Held db) is_unpublished _ (All-held db.outbox_events)))

    publish_body-sent :
        (size : ℕ) (w : World)
        → config.batch_size ≡ pos size
        → publish_body env config w
          ≡ (ok tt, sent_all (claimed (pos size) w.db.outbox_events) (tick w))
    unfolding publish_body ◌>>=◌
    publish_body-sent size w sized =
        rw (claims config.batch_size size w sized)
          (publish_events-sent _ (tick w) (claimed-Held size w.db))

    -- A batch sends each event that it claims, the oldest first, and marks it as published, while the
    -- database and Kafka answer, if the topic has a name and the batch size is not negative.
    pub publish_batch-PublishesAll :
        (size : ℕ) (w : World)
        → config.batch_size ≡ pos size
        → PublishesAll (claimed (pos size) w.db.outbox_events) w (publish_batch env config w)
    unfolding publish_batch with_tx
    publish_batch-PublishesAll size w sized =
        let v : World = record (tick w) { tx = some (env.now w.ticks) } in
        let es = claimed (pos size) w.db.outbox_events in
        rw
          (
            good.answers w.ticks,
            publish_body-sent size v sized,
            good.commits (sent_all es (tick v)).ticks,
          )
          (record {
            answers = refl;
            messages = sent_all-published es (tick v);
            marked = sent_all-Marked es (tick v);
          })

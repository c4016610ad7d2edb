-- ===== src/Publisher/Order.antt =====
-- Which messages a batch sends, and in which order.
use mathlib.Core.Path.{subst}
use go_order_service.Prelude.{
  ℕ, String, ◌≡◌, refl, sym, ◌⊎◌, inl, inr, Bool, true, false, Option, some, List, [], ◌∷◌, arith,
  ◌==◌, ◌≤◌, ◌+◌, nat_eq, string_eq, if◌then◌else◌,
}
use go_order_service.Prelude.Int.{ℤ, pos, negsuc}
use go_order_service.Prelude.Lists.{length, take, select, length-take}
use go_order_service.Prelude.Sorting.{sort_by}
use go_order_service.Schema.{Db, OutboxEvent}
use go_order_service.Runtime.{
  Published, DeliveryOutcome, delivered, undelivered, unconfirmed, CommitOutcome, committed,
  rolled_back, answer_lost, ok, err, unavailable, Result, Env, World, tick, Action, continue, ◌>>=◌,
  query, conclude, settle, with_tx,
}
use go_order_service.Sqlc.Outbox as OutboxQueries
use go_order_service.Sqlc.Outbox.{is_unpublished, is_older}
use go_order_service.Store.Outbox as OutboxStore
use go_order_service.Messages.{marshal_message}
use go_order_service.Publisher.{
  Config, message_of, publish, produce, mark_event, publish_event, publish_events, publish_body,
  publish_batch,
}
use go_order_service.Publisher.Backing.Batch.{mark_event-published, claim-tick}

-- What `LIMIT` leaves of the unpublished events, the oldest first.
abbrev pub claimed : ℤ → List OutboxEvent → List OutboxEvent
claimed (pos n) es = take n (sort_by is_older (select is_unpublished es))
claimed (negsuc n) es = []

module _ (env : Env) (config : Config) where
  abbrev pub announcement : OutboxEvent → Published
  announcement e = record {
    topic = config.topic;
    key = env.render e.partition_key;
    value = marshal_message (message_of env e);
  }

  -- From the first list of messages to the second by messages of some of the events, in their order.
  pub data Sends : List OutboxEvent → List Published → List Published → Type 0 where
    stops : {es : List OutboxEvent} {ms : List Published} → Sends es ms ms
    skips :
        {e : OutboxEvent} {es : List OutboxEvent} {ms ns : List Published}
        → Sends es ms ns
        → Sends (e ∷ es) ms ns
    sends :
        {e : OutboxEvent} {es : List OutboxEvent} {ms ns : List Published}
        → Sends es (announcement e ∷ ms) ns
        → Sends (e ∷ es) ms ns

  Sends-length :
      (es : List OutboxEvent) (ms ns : List Published)
      → Sends es ms ns
      → length ns ≤ length ms + length es
  Sends-length es ms ns stops = omega arith
  Sends-length es ms ns (skips s) = omega (arith, Sends-length _ ms ns s)
  Sends-length es ms ns (sends s) = omega (arith, Sends-length _ _ ns s)

  -- One event: nothing is sent, or its message.
  abbrev One : OutboxEvent → List Published → List Published → Type 0
  One e ms ns = (ns ≡ ms) ⊎ (ns ≡ announcement e ∷ ms)

  produce-One :
      (e : OutboxEvent) (d : DeliveryOutcome) (w : World)
      → One e w.published (produce (announcement e) d w).1.published
  produce-One e delivered w = inr refl
  produce-One e (undelivered text) w = inl refl
  produce-One e (unconfirmed text) w = inr refl

  One-if :
      (e : OutboxEvent) (b : Bool) (m n : Action (Option String)) (w : World)
      → One e w.published (m w).1.published
      → One e w.published (n w).1.published
      → One e w.published ((if b then m else n) w).1.published
  One-if e true m n w h k = h
  One-if e false m n w h k = k

  publish-One :
      (e : OutboxEvent) (w : World)
      → One e w.published
          (publish env config.topic
            (env.render e.partition_key)
            (marshal_message (message_of env e))
            w).1.published
  unfolding publish
  publish-One e w = One-if e (config.topic == "") _ _ w (inl refl) (
      One-if e (env.render e.partition_key == "") _ _ w (inl refl)
        (produce-One e (env.delivery w.ticks) w))

  marked-One :
      (e : OutboxEvent) (ms : List Published) (r : Result (Option String) × World)
      → One e ms r.1.published
      → One e ms (continue r (mark_event env e)).1.published
  marked-One e ms (ok answer, w) h = subst (One e ms) (sym (mark_event-published env e answer w)) h
  marked-One e ms (err x, w) h = h

  publish_event-One :
      (e : OutboxEvent) (w : World) → One e w.published (publish_event env config e w).1.published
  unfolding publish_event ◌>>=◌
  publish_event-One e w = marked-One e w.published _ (publish-One e w)

  Sends-One :
      (e : OutboxEvent) (es : List OutboxEvent) (ms ns ps : List Published)
      → One e ms ns
      → Sends es ns ps
      → Sends (e ∷ es) ms ps
  Sends-One e es ms ns ps (inl same) s = skips (subst (λ ks. Sends es ks ps) same s)
  Sends-One e es ms ns ps (inr sent) s = sends (subst (λ ks. Sends es ks ps) sent s)

  continued-Sends :
      {A B : Type 0} (es : List OutboxEvent) (r : Result A × World) (f : A → Action B)
      → ((a : A) (w : World) → Sends es w.published (f a w).1.published)
      → Sends es r.1.published (continue r f).1.published
  continued-Sends es (ok a, w) f next = next a w
  continued-Sends es (err x, w) f next = stops

  publish_events-Sends :
      (es : List OutboxEvent) (w : World)
      → Sends es w.published (publish_events env config es w).1.published
  unfolding publish_events ◌>>=◌
  publish_events-Sends [] w = stops
  publish_events-Sends (e ∷ es) w =
      Sends-One e es w.published (publish_event env config e w).1.published _
        (publish_event-One e w)
        (continued-Sends es (publish_event env config e w) _ (λ _ v. publish_events-Sends es v))

  claims-claimed :
      (limit : ℤ) (w : World) (es : List OutboxEvent)
      → (OutboxStore.claim_outbox_events env limit w).0 ≡ ok es
      → es ≡ claimed limit w.db.outbox_events
  unfolding OutboxStore.claim_outbox_events query OutboxQueries.claim_outbox_events
  claims-claimed (pos n) w es h = ground arith
  claims-claimed (negsuc n) w es h = ground arith

  batched :
      (expected : List OutboxEvent) (ms : List Published) (r : Result (List OutboxEvent) × World)
      → r.1.published ≡ ms
      → ((es : List OutboxEvent) → r.0 ≡ ok es → es ≡ expected)
      → Sends expected ms (continue r (publish_events env config)).1.published
  batched expected ms (ok es, w) same right =
      subst (λ xs. Sends xs ms (publish_events env config es w).1.published) (right es refl)
        (subst (λ ks. Sends es ks (publish_events env config es w).1.published) same
          (publish_events-Sends es w))
  batched expected ms (err x, w) same right = subst (λ ks. Sends expected ms ks) (sym same) stops

  publish_body-Sends :
      (w : World)
      → Sends
          (claimed config.batch_size w.db.outbox_events)
          w.published
          (publish_body env config w).1.published
  unfolding publish_body ◌>>=◌
  publish_body-Sends w =
      batched _ w.published (OutboxStore.claim_outbox_events env config.batch_size w)
        (rw (claim-tick env config.batch_size w) refl) (claims-claimed config.batch_size w)

  conclude-published :
      {A : Type 0} (before : Db) (a : A) (outcome : CommitOutcome) (w : World)
      → (conclude before a outcome w).1.published ≡ w.published
  conclude-published before a committed w = refl
  conclude-published before a rolled_back w = refl
  conclude-published before a answer_lost w = refl

  settle-published :
      {A : Type 0} (before : Db) (outcome : ℕ → CommitOutcome) (r : Result A × World)
      → (settle before outcome r).1.published ≡ r.1.published
  settle-published before outcome (ok a, w) = conclude-published before a (outcome w.ticks) w
  settle-published before outcome (err e, w) = refl

  -- A batch sends messages of unpublished events only, at most as many as its size says, each once at
  -- most and the oldest first, whatever fails.
  pub publish_batch-Sends :
      (w : World)
      → Sends
          (claimed config.batch_size w.db.outbox_events)
          w.published
          (publish_batch env config w).1.published
  unfolding publish_batch with_tx
  publish_batch-Sends w =
      elim (env.fault w.ticks)
        as (λ b.
          Sends (claimed config.batch_size w.db.outbox_events) w.published
            (if b
              then (err unavailable, tick w)
              else settle w.db env.commit (
                  publish_body env config
                    (record (tick w) { tx = some (env.now w.ticks) }))).1.published) [
                      | true ↦ stops
                      | false ↦
                          subst
                            (λ ks.
                              Sends (claimed config.batch_size w.db.outbox_events) w.published ks)
                            (sym (
                              settle-published w.db env.commit (
                                publish_body env config
                                  (record (tick w) { tx = some (env.now w.ticks) }))))
                            (publish_body-Sends (record (tick w) { tx = some (env.now w.ticks) }))
                    ]

  -- A batch adds at most as many messages as its size says.
  pub length-publish_batch :
      (size : ℕ) (w : World)
      → config.batch_size ≡ pos size
      → length (publish_batch env config w).1.published ≤ length w.published + size
  length-publish_batch size w h =
      let bound : length (claimed config.batch_size w.db.outbox_events) ≤ size =
        rw h (length-take size (sort_by is_older (select is_unpublished w.db.outbox_events))) in
      omega (arith, bound, Sends-length _ _ _ (publish_batch-Sends w))

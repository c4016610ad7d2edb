-- ===== src/Publisher/Backing/Batch.antt =====
-- The events that are marked as published and their messages on Kafka: the rows.
use mathlib.Core.Path.{subst}
use mathlib.Core.Path.{subst}
use go_order_service.Prelude.{
  ℕ, suc, String, ◌≡◌, refl, sym, true, false, Option, none, some, List, [], ◌∷◌, arith, ◌==◌,
  nat_eq, string_eq, if◌then◌else◌,
}
use go_order_service.Prelude.Int.{ℤ}
use go_order_service.Prelude.Lists.{All, All-update}
use go_order_service.Schema.{Db, OutboxEvent}
use go_order_service.Runtime.{
  Published, CommitOutcome, committed, rolled_back, answer_lost, ok, err, unavailable, Result, Env,
  World, tick, Action, continue, ◌>>=◌, query, scan_uuid, conclude, settle, with_tx,
}
use go_order_service.Runtime.Ends.{Ends, Ends-bind, Ends-pure, Ends-weaken}
use go_order_service.Sqlc.Outbox as OutboxQueries
use go_order_service.Sqlc.Outbox.{is_unpublished, published_row, failed_row}
use go_order_service.Store.Outbox as OutboxStore
use go_order_service.Store.Orders.{text_or_null}
use go_order_service.Publisher.{
  Config, mark_event, publish_event, publish_events, publish_body, publish_batch,
}
use go_order_service.Publisher.Stories.{
  mark_outbox_event_published-MarkedPublished, mark_outbox_event_failed-MarkedFailed,
}
use go_order_service.Publisher.Backing.{
  is_announced, Backed, IsBacked, Grows, grown, Promised, Handed, publish-Handed,
}

module _ (env : Env) where
  -- Marking a row whose message is there, or one that stays unpublished.
  marked_published :
      (id : ℕ) (ms : List Published) (w : World)
      → is_announced env id ms ≡ true
      → All (Backed env ms) w.db.outbox_events
      → Ends
          (λ _ db. All (Backed env ms) db.outbox_events)
          (λ _ _. Unit)
          (OutboxStore.mark_outbox_event_published env (env.render id) w)
  marked_published id ms w there h =
      Ends-weaken _ (mark_outbox_event_published-MarkedPublished env _ id w (env.scan-render id))
        (λ x v m. rw m.stores (
          All-update (λ r. r.id == id)
            (λ r. record r { published_at = x.published_at; last_error = none }) w.db.outbox_events
            (λ r hit b p. ground arith) h))
        (λ _ _ _. tt)

  marked_failed :
      (id : ℕ) (text : String) (ms : List Published) (w : World)
      → All (Backed env ms) w.db.outbox_events
      → Ends
          (λ _ db. All (Backed env ms) db.outbox_events)
          (λ _ _. Unit)
          (OutboxStore.mark_outbox_event_failed env (env.render id) text w)
  marked_failed id text ms w h =
      Ends-weaken _ (mark_outbox_event_failed-MarkedFailed env _ text id w (env.scan-render id))
        (λ x v m. rw m.stores (
          All-update (λ r. r.id == id)
            (λ r. record r { attempt = suc r.attempt; last_error = text_or_null text })
            w.db.outbox_events (λ r hit b p. b p) h))
        (λ _ _ _. tt)

  abbrev IsOk : {A : Type 0} → Result A → Type 0
  IsOk (ok a) = Unit
  IsOk (err e) = ⊥

  -- Messages stay on Kafka however an action ends, and where it succeeds, rows stay backed.
  record Step {A : Type 0} (w : World) (r : Result A × World) : Type 0 where
    grows : Grows env w r.1
    backed : IsOk r.0 → IsBacked env w → IsBacked env r.1

  succeeded :
      {A : Type 0} (I : Db → Type 0) (r : Result A × World)
      → Ends (λ _ db. I db) (λ _ _. Unit) r
      → IsOk r.0
      → I r.1.db
  succeeded I (ok a, w) h k = h.as_stated
  succeeded I (err e, w) h k = absurd k

  pub mark_event-published :
      (e : OutboxEvent) (r : Option String) (w : World)
      → (mark_event env e r w).1.published ≡ w.published
  unfolding ◌>>=◌ OutboxStore.mark_outbox_event_published OutboxStore.mark_outbox_event_failed
      scan_uuid query OutboxQueries.mark_outbox_event_published
      OutboxQueries.mark_outbox_event_failed
  mark_event-published e none w = ground (arith, env.scan-render e.id)
  mark_event-published e (some text) w = ground (arith, env.scan-render e.id)

  mark_event-Backed :
      (e : OutboxEvent) (r : Option String) (w : World)
      → Promised env e.id r w
      → IsBacked env w
      → Ends
          (λ _ db. All (Backed env w.published) db.outbox_events)
          (λ _ _. Unit)
          (mark_event env e r w)
  mark_event-Backed e none w there h =
      Ends-bind _ _ w (marked_published e.id w.published w there h) λ _ v k. Ends-pure _ _ k
  mark_event-Backed e (some text) w there h =
      Ends-bind _ _ w (marked_failed e.id text w.published w h) λ _ v k. Ends-pure _ _ k

  mark_event-Step :
      (e : OutboxEvent) (r : Option String) (w : World)
      → Promised env e.id r w
      → Step w (mark_event env e r w)
  mark_event-Step e r w there = record {
    grows =
        λ id h. subst (λ ms. is_announced env id ms ≡ true) (sym (mark_event-published e r w)) h;
    backed = λ fine h.
        subst (λ ms. All (Backed env ms) (mark_event env e r w).1.db.outbox_events)
          (sym (mark_event-published e r w))
          (succeeded (λ db. All (Backed env w.published) db.outbox_events) _
            (mark_event-Backed e r w there h) fine);
  }

  after_publish :
      (w : World) (e : OutboxEvent) (r : Result (Option String) × World)
      → Handed env w e r
      → Step w (continue r (mark_event env e))
  after_publish w e (ok answer, v) h =
      let step = mark_event-Step e answer v (h.promised answer refl) in
      record {
        grows = λ id there. step.grows id (h.grows id there);
        backed = λ fine b. step.backed fine (
            subst (λ db. All (Backed env v.published) db.outbox_events) (sym h.same)
              (grown env w.db w v h.grows b));
      }
  after_publish w e (err x, v) h = record { grows = h.grows; backed = λ fine b. absurd fine }

  continue-Step :
      {A B : Type 0} (w : World) (r : Result A × World) (f : A → Action B)
      → Step w r
      → ((a : A) (v : World) → Step v (f a v))
      → Step w (continue r f)
  continue-Step w (ok a, v) f h next =
      let step = next a v in
      record {
        grows = λ id there. step.grows id (h.grows id there);
        backed = λ fine b. step.backed fine (h.backed tt b);
      }
  continue-Step w (err x, v) f h next = record { grows = h.grows; backed = λ fine b. absurd fine }

  pub claim-tick :
      (limit : ℤ) (w : World) → (OutboxStore.claim_outbox_events env limit w).1 ≡ tick w
  unfolding OutboxStore.claim_outbox_events query OutboxQueries.claim_outbox_events
  claim-tick limit w = ground arith

  claim-Step : (limit : ℤ) (w : World) → Step w (OutboxStore.claim_outbox_events env limit w)
  claim-Step limit w = record {
    grows =
        λ id h. subst (λ v. is_announced env id v.published ≡ true) (sym (claim-tick limit w)) h;
    backed = λ fine h. subst (IsBacked env) (sym (claim-tick limit w)) h;
  }

  module _ (config : Config) where
    publish_event-Step : (e : OutboxEvent) (w : World) → Step w (publish_event env config e w)
    unfolding publish_event ◌>>=◌
    publish_event-Step e w = after_publish w e _ (publish-Handed env e config.topic w)

    publish_events-Step :
        (es : List OutboxEvent) (w : World) → Step w (publish_events env config es w)
    unfolding publish_events ◌>>=◌
    publish_events-Step [] w = record { grows = λ id h. h; backed = λ _ h. h }
    publish_events-Step (e ∷ es) w =
        continue-Step w _ _ (publish_event-Step e w) λ _ v. publish_events-Step es v

    publish_body-Step : (w : World) → Step w (publish_body env config w)
    unfolding publish_body ◌>>=◌
    publish_body-Step w =
        continue-Step w _ _ (claim-Step config.batch_size w) λ es v. publish_events-Step es v

  conclude-IsBacked :
      {A : Type 0} (before w v : World) (a : A) (outcome : CommitOutcome)
      → Grows env before v
      → IsBacked env before
      → IsBacked env v
      → IsBacked env (conclude before.db a outcome v).1
  conclude-IsBacked before w v a committed g b h = h
  conclude-IsBacked before w v a rolled_back g b h = grown env before.db before v g b
  conclude-IsBacked before w v a answer_lost g b h = h

  settle-IsBacked :
      {A : Type 0} (w : World) (outcome : ℕ → CommitOutcome) (r : Result A × World)
      → Step w r
      → IsBacked env w
      → IsBacked env (settle w.db outcome r).1
  settle-IsBacked w outcome (ok a, v) s h =
      conclude-IsBacked w w v a (outcome v.ticks) s.grows h (s.backed tt h)
  settle-IsBacked w outcome (err e, v) s h = grown env w.db w v s.grows h

  -- After any batch, failing or not, each event that is marked as published has a message on Kafka
  -- that the consumer reads as this event, if that was so before.
  pub publish_batch-IsBacked :
      (config : Config) (w : World) → IsBacked env w → IsBacked env (publish_batch env config w).1
  unfolding publish_batch with_tx
  publish_batch-IsBacked config w h =
      elim (env.fault w.ticks)
        as (λ b.
          IsBacked env
            (if b
              then (err unavailable, tick w)
              else settle w.db env.commit
                  (publish_body env config (record (tick w) { tx = some (env.now w.ticks) }))).1) [
                    | true ↦ h
                    | false ↦
                        settle-IsBacked (record (tick w) { tx = some (env.now w.ticks) }) env.commit
                          _ (publish_body-Step config _) h
                  ]

-- ===== src/Consumer/Inbox.antt =====
-- Redelivered events: the invariant of processed events and their deliveries.
use mathlib.Core.Path.{subst}
use go_order_service.Prelude.{
  ℕ, suc, ◌≡◌, refl, sym, ◌⊎◌, inl, inr, Bool, true, false, none, some, ◌∷◌, arith, ◌==◌, nat_eq,
  string_eq, eq_iff,
}
use go_order_service.Prelude.Lists.{count}
use go_order_service.Encoding.{Bytes}
use go_order_service.Schema.{Db}
use go_order_service.Runtime.{
  Error, invalid_message, Result, ok, err, Env, World, ◌>>=◌, attempt, query, scan_uuid, committed,
  with_tx, consumer_events_duplicate,
}
use go_order_service.Runtime.Ends.{Ends, Atomic, Ends-always, Atomic-always}
use go_order_service.Sqlc.Consumption as ConsumptionQueries
use go_order_service.Store.Consumption as ConsumptionStore
use go_order_service.Consumer.{
  Notice, consumer_name, validate, handle, handle_record, discard, process, process_body,
}
use go_order_service.Consumer.Deliveries.{
  is_processed, Delivered, Settled, HandleOutcome, Rejected, handle-Outcome,
}

abbrev pub deliveries_of : ℕ → Db → ℕ
deliveries_of id db = count (λ d. d.event_id == id) db.notification_deliveries

abbrev pub once : Bool → ℕ
once b = elim b [ true ↦ 1 | false ↦ 0 ]

-- An event has one delivery if it is processed, and none otherwise.
abbrev pub IsInbox : Db → Type 0
IsInbox db = (id : ℕ) → deliveries_of id db ≡ once (is_processed id db)

module _ (env : Env) where
  Delivered-IsInbox :
      (n : Notice) (before after : Db)
      → Delivered env n before after
      → IsInbox before
      → IsInbox after
  Delivered-IsInbox n before after d h id =
      rw d.stores (ground (arith, h id, eq_iff d.event.consumer_name consumer_name))

  Settled-IsInbox :
      (n : Notice) (before after : Db) → Settled env n before after → IsInbox before → IsInbox after
  Settled-IsInbox n before after (inl d) h = Delivered-IsInbox n before after d h
  Settled-IsInbox n before after (inr r) h = subst IsInbox (sym r.unchanged) h

  HandleOutcome-IsInbox :
      (payload : Bytes) (before after : Db)
      → HandleOutcome env payload before after
      → IsInbox before
      → IsInbox after
  HandleOutcome-IsInbox payload before after (n, _, s) h = Settled-IsInbox n before after s h

  pub handle-IsInbox :
      (payload : Bytes) (w : World) → IsInbox w.db → IsInbox (handle env payload w).1.db
  handle-IsInbox payload w i =
      Ends-always IsInbox _ (handle-Outcome env payload w)
        (λ _ db h. HandleOutcome-IsInbox payload w.db db h i) failed
    where
      failed :
          (e : Error) (db : Db)
          → Rejected env payload w.db e db
            ⊎ Atomic {A = Unit} w.db (λ _ after. HandleOutcome env payload w.db after) e db
          → IsInbox db
      failed e db (inl (_, _, same)) = subst IsInbox (sym same) i
      failed e db (inr h) =
          Atomic-always IsInbox i (λ _ after o. HandleOutcome-IsInbox payload w.db after o i) e db h

  discard-db : (r : Result Unit) (w : World) → (discard env r w).1.db ≡ w.db
  discard-db (ok u) w = refl
  discard-db (err invalid_message) w = refl
  discard-db (err e) w = refl

  pub handle_record-db :
      (value : Bytes) (w : World) → (handle_record env value w).1.db ≡ (handle env value w).1.db
  unfolding handle_record ◌>>=◌ attempt
  handle_record-db value w = discard-db (handle env value w).0 (handle env value w).1

  pub handle_record-IsInbox :
      (value : Bytes) (w : World) → IsInbox w.db → IsInbox (handle_record env value w).1.db
  handle_record-IsInbox value w i =
      subst IsInbox (sym (handle_record-db value w)) (handle-IsInbox value w i)

  pub Settled-is_processed :
      (n : Notice) (before after : Db)
      → Settled env n before after
      → (id : ℕ) × (env.scan n.event_id ≡ some id) × (is_processed id after ≡ true)
  Settled-is_processed n before after (inl d) = (
    d.event.event_id,
    d.scanned,
    rw d.stores (ground (arith, eq_iff d.event.consumer_name consumer_name)),
  )
  Settled-is_processed n before after (inr r) = (
    r.event_id,
    r.scanned,
    subst (λ db. is_processed r.event_id db ≡ true) (sym r.unchanged) r.processed,
  )

  -- A message whose event is processed is answered without an error, counted as a duplicate, and
  -- nothing is written, if the server can be reached.
  pub handle_repeated :
      (payload : Bytes) (n : Notice) (id : ℕ) (w : World)
      → env.fault w.ticks ≡ false
      → env.fault (suc w.ticks) ≡ false
      → env.commit (suc (suc w.ticks)) ≡ committed
      → validate env payload ≡ some n
      → env.scan n.event_id ≡ some id
      → is_processed id w.db ≡ true
      → handle env payload w ≡ (
        ok tt,
        record w {
          tx = none;
          ticks = suc (suc (suc w.ticks));
          metrics = consumer_events_duplicate n.event_type ∷ w.metrics;
        },
      )
  unfolding handle process process_body ◌>>=◌ attempt query scan_uuid with_tx
      ConsumptionStore.try_create_processed_event ConsumptionQueries.try_create_processed_event
  handle_repeated payload n id w f g c valid scanned there = ground arith

  -- A message that was handled without an error, handled again while the server can be reached, is
  -- handled without an error again and changes nothing.
  pub handle_twice :
      (payload : Bytes) (w w' : World)
      → env.fault w'.ticks ≡ false
      → env.fault (suc w'.ticks) ≡ false
      → env.commit (suc (suc w'.ticks)) ≡ committed
      → handle env payload w ≡ (ok tt, w')
      → ((handle env payload w').0 ≡ ok tt) × ((handle env payload w').1.db ≡ w'.db)
  handle_twice payload w w' f g c e =
      let (n, valid, s) =
        (subst
          (Ends (λ _ after. HandleOutcome env payload w.db after)
            λ x after.
              Rejected env payload w.db x after
              ⊎ Atomic {A = Unit} w.db (λ _ db. HandleOutcome env payload w.db db) x after)
          e (handle-Outcome env payload w)).as_stated in
      let (id, scanned, there) = Settled-is_processed n w.db w'.db s in
      rw (handle_repeated payload n id w' f g c valid scanned there) (refl, refl)

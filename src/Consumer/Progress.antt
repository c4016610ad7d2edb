-- ===== src/Consumer/Progress.antt =====
-- `EventHandler.Handle` while nothing outside fails.
use go_order_service.Prelude.{
  ℕ, String, ◌≡◌, refl, sym, Bool, true, false, some, arith, ◌==◌, nat_eq, string_eq,
}
use go_order_service.Encoding.{Bytes}
use go_order_service.Prelude.Lists.{contains}
use go_order_service.Schema.{Db, ProcessedEvent}
use mathlib.Core.Path.{subst}
use go_order_service.Runtime.Ends.{Ends, Either, Ends-bind, Ends-attempt, Ends-pure}
use go_order_service.Runtime.{Result, no_rows, err, Env, World, ok, ◌>>=◌, query, scan_uuid}
use go_order_service.Runtime.Reachable.{Reachable, Unused, Never, new_uuid-fresh, with_tx-Never}
use go_order_service.Sqlc.Consumption as ConsumptionQueries
use go_order_service.Store.Consumption as ConsumptionStore
use go_order_service.Consumer.{
  Notice, validate, handle, process, process_body, deliver, count_event, consumer_name,
  channel_email, status_sent,
}

module _ (env : Env) (good : Reachable env) (n : Notice) (id : ℕ)
    (scanned : env.scan n.event_id ≡ some id) where
  marks :
      (w : World)
      → Ends
          (λ e db. db.notification_deliveries ≡ w.db.notification_deliveries)
          (λ e db. e ≡ no_rows)
          (ConsumptionStore.try_create_processed_event env n.event_id consumer_name w)
  unfolding ConsumptionStore.try_create_processed_event ◌>>=◌ scan_uuid query
      ConsumptionQueries.try_create_processed_event
  marks w = ground (arith, good.answers w.ticks, scanned)

  inserts :
      (k : ℕ) (text : String) (w : World)
      → text ≡ env.render (env.fresh k)
      → contains (λ d. d.id == env.fresh k) w.db.notification_deliveries ≡ false
      → Ends
          (λ _ _. Unit)
          Never
          (ConsumptionStore.create_notification_delivery env
            (record {
              id = text;
              event_id = n.event_id;
              channel = channel_email;
              recipient = n.recipient;
              status = status_sent;
            })
            w)
  unfolding ConsumptionStore.create_notification_delivery ◌>>=◌ scan_uuid query
      ConsumptionQueries.create_notification_delivery
  inserts k text w given free =
      ground (arith, good.answers w.ticks, scanned, env.scan-render (env.fresh k))

  delivers :
      (before : Db) (r : Result ProcessedEvent) (w : World)
      → Unused env before
      → Either
          (λ _ db. db.notification_deliveries ≡ before.notification_deliveries)
          (λ e db. e ≡ no_rows)
          r
          w.db
      → Ends (λ _ _. Unit) Never (deliver env n r w)
  delivers before (ok e) w unused same =
      Ends-bind _ _ w (new_uuid-fresh env w) λ text v ((k, given), same').
        Ends-bind _ _ v (inserts k text v given (rw (same', same) (unused.deliveries k)))
          λ _ u _. Ends-pure _ u tt
  delivers before (err no_rows) w unused h = Ends-pure _ w tt
  delivers before (err x) w unused h = absurd (cc)

  process-Never : (w : World) → Unused env w.db → Ends (λ _ _. Unit) Never (process env n w)
  unfolding process process_body
  process-Never w unused =
      Ends-bind _ _ w
        (with_tx-Never env good _ w λ v same.
          Ends-bind _ _ v (Ends-attempt _ v (marks v))
            λ r u h. delivers v.db r u (subst (Unused env) (sym same) unused) h)
        λ b v _. counted b v
    where
      counted : (b : Bool) (v : World) → Ends (λ _ _. Unit) Never (count_event env n b v)
      counted true v = Ends-pure _ _ tt
      counted false v = Ends-pure _ _ tt

  succeeded : (r : Result Unit × World) → Ends (λ _ _. Unit) Never r → r.0 ≡ ok tt
  succeeded (ok tt, w) h = refl
  succeeded (err e, w) h = absurd h.as_stated

  -- A valid message, whose event id the database can read, is handled without an error while nothing
  -- outside fails and `uuid.New` gives no id that is in use, whether its event is new or was processed
  -- before.
  pub handle-Reachable :
      (payload : Bytes) (w : World)
      → validate env payload ≡ some n
      → Unused env w.db
      → (handle env payload w).0 ≡ ok tt
  unfolding handle
  handle-Reachable payload w valid unused = rw valid (succeeded _ (process-Never w unused))

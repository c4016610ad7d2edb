-- ===== src/System.antt =====
-- The three programs of cmd together, on one database: requests to the API server, batches of the
-- publisher and records for the consumer, in any order, one after another.
pub mod Notices
pub mod Delivery
use go_order_service.Prelude.{◌≡◌, refl, inl, inr, List, [], ◌∷◌, ◌⊎◌, arith}
use mathlib.Core.Path.{subst}
use go_order_service.Prelude.{sym}
use go_order_service.Encoding.{Bytes}
use go_order_service.Schema.{Db}
use go_order_service.Runtime.{Error, Result, ok, err, Env, World, ◌>>=◌, attempt}
use go_order_service.Runtime.Ends.{Ends-always, Atomic, Atomic-always}
use go_order_service.RedisClient.{Site}
use go_order_service.Orders.Ledger.{IsLedger}
use go_order_service.Publisher.{Config, publish_batch}
use go_order_service.Publisher.Stories.{publish_batch-IsLedger}
use go_order_service.Consumer.{Notice, handle, handle_record, discard}
use go_order_service.Consumer.Deliveries.{HandleOutcome, Rejected, Delivered, handle-Outcome}
use go_order_service.Api.{Request}
use go_order_service.Api.Server.{RouterConfig}
use go_order_service.Api.Router.{serve}
use go_order_service.Api.Invariants.{serve_all, serve_all-IsLedger}

-- What one of the programs does next.
pub data Turn : Type 0 where
  request : Request → Turn
  batch : Turn
  record_value : Bytes → Turn

abbrev pub on_store : {Store : Type 0} → Store → World → Site Store
on_store s w = record { world = w; store = s }

module _ {Store : Type 0} (server : RouterConfig Store) (config : Config) where
  unfoldable pub take_turn : Turn → Site Store → Site Store
  take_turn (request r) x = (serve server r x).1
  take_turn batch x = on_store x.store (publish_batch server.env config x.world).1
  take_turn (record_value value) x = on_store x.store (handle_record server.env value x.world).1

  unfoldable pub run_system : List Turn → Site Store → Site Store
  run_system [] x = x
  run_system (t ∷ ts) x = run_system ts (take_turn t x)

Delivered-IsLedger :
    (env : Env) (n : Notice) (before after : Db)
    → Delivered env n before after
    → IsLedger before
    → IsLedger after
Delivered-IsLedger env n before after d h = record {
  charged = λ id. rw d.stores (h.charged id);
  created_events = λ id. rw d.stores (h.created_events id);
  success_events = λ id. rw d.stores (h.success_events id);
  failure_events = λ id. rw d.stores (h.failure_events id);
  cancel_events = λ id. rw d.stores (h.cancel_events id);
  positive = λ id. rw d.stores (h.positive id);
}

-- A property of the database that a delivery keeps is kept by the handling of a record.
module _ (env : Env) {I : Db → Type 0}
    (delivered : (n : Notice) (before after : Db)
      → Delivered env n before after
      → I before
      → I after) where
  HandleOutcome-keeps :
      (value : Bytes) (before after : Db)
      → HandleOutcome env value before after
      → I before
      → I after
  HandleOutcome-keeps value before after (n, valid, inl made) h = delivered n before after made h
  HandleOutcome-keeps value before after (n, valid, inr again) h = subst I (sym again.unchanged) h

  handle-keeps : (value : Bytes) (w : World) → I w.db → I (handle env value w).1.db
  handle-keeps value w h = Ends-always I _ (handle-Outcome env value w) good bad
    where
      good : (u : Unit {0}) (db : Db) → HandleOutcome env value w.db db → I db
      good u db made = HandleOutcome-keeps value w.db db made h

      bad :
          (e : Error) (db : Db)
          → Rejected env value w.db e db
            ⊎ Atomic {A = Unit {0}} w.db (λ _ d. HandleOutcome env value w.db d) e db
          → I db
      bad e db (inl (_, _, same)) = subst I (sym same) h
      bad e db (inr lost) = Atomic-always I h good e db lost

  -- What the record handler makes of an error is no change.
  discarded : (r : Result (Unit {0})) (w : World) → (discard env r w).1 ≡ w
  discarded (ok u) w = refl
  discarded (err e) w = ground arith

  handle_record-keeps : (value : Bytes) (w : World) → I w.db → I (handle_record env value w).1.db
  unfolding handle_record ◌>>=◌ attempt
  handle_record-keeps value w h =
      rw (discarded (handle env value w).0 (handle env value w).1) (handle-keeps value w h)

-- What keeps a property, whichever program takes its turn.
pub record Kept {Store : Type 0} (server : RouterConfig Store) (config : Config) (I : Db → Type 0)
    : Type 0 where
  pub requests : (r : Request) (x : Site Store) → I x.world.db → I (serve server r x).1.world.db
  pub batches : (w : World) → I w.db → I (publish_batch server.env config w).1.db
  pub deliveries :
      (n : Notice) (before after : Db) → Delivered server.env n before after → I before → I after

pub run_system-keeps :
    {Store : Type 0} (server : RouterConfig Store) (config : Config) {I : Db → Type 0}
    → Kept server config I
    → (ts : List Turn) (x : Site Store) → I x.world.db
    → I (run_system server config ts x).world.db
unfolding run_system take_turn
run_system-keeps server config k [] x h = h
run_system-keeps server config k (request r ∷ ts) x h =
    run_system-keeps server config k ts (serve server r x).1 (k.requests r x h)
run_system-keeps server config k (batch ∷ ts) x h =
    run_system-keeps server config k ts (take_turn server config batch x) (k.batches x.world h)
run_system-keeps server config k (record_value value ∷ ts) x h =
    run_system-keeps server config k ts (take_turn server config (record_value value) x)
      (handle_record-keeps server.env k.deliveries value x.world h)

-- Whatever the three programs do, in any order and whatever fails, the orders, their payments and the
-- events of the outbox keep agreeing as `IsLedger` says: each order is paid by exactly one successful
-- payment if its status is paid and by none otherwise, and the outbox holds one event for its
-- creation, one for each of its payments by outcome, and one for its cancellation exactly if it is
-- cancelled.
pub run_system-IsLedger :
    {Store : Type 0} (server : RouterConfig Store) (config : Config) (ts : List Turn)
    (x : Site Store)
    → IsLedger x.world.db
    → IsLedger (run_system server config ts x).world.db
unfolding serve_all
run_system-IsLedger server config ts x h =
    run_system-keeps server config
      (record {
        requests = λ r y i. serve_all-IsLedger server (r ∷ []) y i;
        batches = publish_batch-IsLedger server.env config;
        deliveries = Delivered-IsLedger server.env;
      })
      ts x h

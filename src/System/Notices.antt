-- ===== src/System/Notices.antt =====
-- The events of the outbox as the consumer takes them.
use go_order_service.Prelude.{
  ◌≡◌, refl, false, some, none, List, [], ◌∷◌, map, arith, ◌==◌, string_eq, if◌then◌else◌, String,
  eq_iff,
}
use go_order_service.Prelude.Lists.{All, All-map}
use go_order_service.Encoding.{encoded}
use go_order_service.Schema.{Db, Order, OutboxEvent, EventType, event_type_text}
use go_order_service.Runtime.{Env, World}
use go_order_service.Runtime.Ends.{Ends-always, Atomic-always}
use go_order_service.Runtime.Uuids.{render-ne-nil}
use go_order_service.RedisClient.{Site}
use go_order_service.Auth.Accounts.{Accounts}
use go_order_service.Messages.{unmarshal_user_id, marshal_message}
use go_order_service.Messages.Decoding.{unmarshal-marshal}
use go_order_service.Sqlc.Orders.{find_order}
use go_order_service.Orders.Notices.{Addressed, IsAddressed, IsAddressed-Holds}
use go_order_service.Publisher.{Config, message_of, publish_batch}
use go_order_service.Publisher.Stories.{SameStory, content, publish_batch-SameStory}
use go_order_service.Consumer.{Notice, is_uuid, validate}
use go_order_service.Consumer.Deliveries.{Delivered}
use go_order_service.Api.Server.{RouterConfig}
use go_order_service.Api.Invariants.{serve_all, serve_all-Keeps}
use go_order_service.System.{Turn, run_system, run_system-keeps}

event_type_text-ne-nil : (t : EventType) → (event_type_text t == "") ≡ false
event_type_text-ne-nil EventType.order_created = refl
event_type_text-ne-nil EventType.order_cancelled = refl
event_type_text-ne-nil EventType.payment_succeeded = refl
event_type_text-ne-nil EventType.payment_failed = refl

module _ (env : Env) where
  All-content :
      (os : List Order) (rows : List OutboxEvent)
      → All (Addressed env os) rows
      → All (Addressed env os) (map content rows)
  All-content os [] h = tt
  All-content os (e ∷ rows) (a, h) = (
    record { order = a.order; user = a.user; found = a.found; told = a.told; owner = a.owner },
    All-content os rows h,
  )

  content-All :
      (os : List Order) (rows : List OutboxEvent)
      → All (Addressed env os) (map content rows)
      → All (Addressed env os) rows
  content-All os [] h = tt
  content-All os (e ∷ rows) (a, h) = (
    record { order = a.order; user = a.user; found = a.found; told = a.told; owner = a.owner },
    content-All os rows h,
  )

  SameStory-IsAddressed :
      (before after : Db) → SameStory before after → IsAddressed env before → IsAddressed env after
  SameStory-IsAddressed before after s h = rw s.elsewhere (
      content-All before.orders after.outbox_events
        (rw s.contents (All-content before.orders before.outbox_events h)))

  publish_batch-IsAddressed :
      (config : Config) (w : World)
      → IsAddressed env w.db
      → IsAddressed env (publish_batch env config w).1.db
  publish_batch-IsAddressed config w h =
      Ends-always (IsAddressed env) _ (publish_batch-SameStory env config w)
        (λ _ db s. SameStory-IsAddressed w.db db s h)
        (Atomic-always (IsAddressed env) h λ _ db s. SameStory-IsAddressed w.db db s h)

  -- The consumer's reading of the message of an event: a notice of this event to a text that the
  -- database reads as the owner of the event's order, or an invalid message where `uuid.Parse`
  -- refuses this text.
  pub record Noticed (db : Db) (e : OutboxEvent) : Type 0 where
    pub order : Order
    pub user : String
    pub found : find_order e.partition_key db.orders ≡ some order
    pub owner : env.scan user ≡ some order.user_id
    pub taken : validate env (encoded (marshal_message (message_of env e))) ≡ (
        if is_uuid env user
        then some (record {
          event_id = env.render e.id;
          event_type = event_type_text e.event_type;
          recipient = user;
        })
        else none)

  pub validates :
      (e : OutboxEvent) (user : String)
      → unmarshal_user_id (encoded e.payload) ≡ some user
      → validate env (encoded (marshal_message (message_of env e))) ≡ (
          if is_uuid env user
          then some (record {
            event_id = env.render e.id;
            event_type = event_type_text e.event_type;
            recipient = user;
          })
          else none)
  unfolding validate
  validates e user told = rw (unmarshal-marshal (message_of env e) e.payload refl) (
      ground (
        arith,
        render-ne-nil env e.id,
        env.parse-render e.id,
        event_type_text-ne-nil e.event_type,
        told,
        eq_iff user "",
        env.parse-nil,
      ))

  Addressed-Noticed : (db : Db) (e : OutboxEvent) → Addressed env db.orders e → Noticed db e
  Addressed-Noticed db e a = record {
    order = a.order;
    user = a.user;
    found = a.found;
    owner = a.owner;
    taken = validates e a.user a.told;
  }

Accounts-IsAddressed :
    (env : Env) (before after : Db)
    → Accounts before after
    → IsAddressed env before
    → IsAddressed env after
Accounts-IsAddressed env before after same h = rw same h

Delivered-IsAddressed :
    (env : Env) (n : Notice) (before after : Db)
    → Delivered env n before after
    → IsAddressed env before
    → IsAddressed env after
Delivered-IsAddressed env n before after d h = rw d.stores h

-- Whatever the three programs do, in any order and whatever fails, the consumer reads the message of
-- each event in the outbox as a notice of this event to the owner of its order, by a text that the
-- database reads as the owner's id; it refuses the message only where `uuid.Parse` refuses this text.
-- The events that were in the outbox before have the owners of their orders in their payloads.
pub run_system-Noticed :
    {Store : Type 0} (server : RouterConfig Store) (config : Config) (ts : List Turn)
    (x : Site Store)
    → IsAddressed server.env x.world.db
    → All
        (Noticed server.env (run_system server config ts x).world.db)
        (run_system server config ts x).world.db.outbox_events
unfolding serve_all
run_system-Noticed server config ts x h =
    let after = (run_system server config ts x).world.db in
    All-map after.outbox_events (λ e a. Addressed-Noticed server.env after e a)
      (run_system-keeps server config
        (record {
          requests = λ r y i.
              serve_all-Keeps server
                (record {
                  writes = IsAddressed-Holds server.env;
                  accounts = Accounts-IsAddressed server.env;
                })
                (r ∷ []) y i;
          batches = publish_batch-IsAddressed server.env config;
          deliveries = Delivered-IsAddressed server.env;
        })
        ts x h)

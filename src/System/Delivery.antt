-- ===== src/System/Delivery.antt =====
-- From the outbox to the notification: a batch of the publisher, and the record of an event.
use mathlib.Core.List.{Memᴰ}
use mathlib.Core.Path.{subst}
use go_order_service.Prelude.{
  ℕ, ◌≡◌, inl, inr, ◌&&◌, eq_iff, String, refl, sym, true, false, some, List, [], ◌∷◌, ◌∙◌, arith,
  ◌==◌, string_eq, nat_eq,
}
use go_order_service.Prelude.{map}
use go_order_service.Prelude.Lists.{contains, count}
use go_order_service.Prelude.Int.{pos}
use go_order_service.Encoding.{Bytes, encoded}
use go_order_service.Schema.{Db, OutboxEvent, event_type_text}
use go_order_service.Runtime.{Result, ok, err, Env, World, Published, delivered}
use go_order_service.Runtime.Ends.{Ends, Ends-weaken, Ends-always, Atomic-always}
use go_order_service.Runtime.Reachable.{Reachable, Unused}
use go_order_service.Orders.Notices.{Addressed}
use go_order_service.Publisher.{Config, publish_batch}
use go_order_service.Publisher.Order.{claimed, announcement}
use go_order_service.Publisher.Progress.{announced, publish_batch-PublishesAll}
use go_order_service.Publisher.Stories.{SameStory, content, publish_batch-SameStory}
use go_order_service.Consumer.{consumer_name, Notice, validate, handle}
use go_order_service.Consumer.Deliveries.{is_processed, Settled, HandleOutcome, handle-Outcome}
use go_order_service.Consumer.Inbox.{
  once, IsInbox, deliveries_of, handle-IsInbox, Settled-is_processed,
}
use go_order_service.Consumer.Progress.{handle-Reachable}
use go_order_service.System.Notices.{validates}

contains-content :
    (k : ℕ) (rows : List OutboxEvent)
    → contains (λ e. e.id == k) (map content rows) ≡ contains (λ e. e.id == k) rows
contains-content k [] = refl
contains-content k (e ∷ rows) = ground (arith, contains-content k rows)

-- The deliveries of an event to a recipient.
abbrev pub delivered_to : ℕ → String → Db → ℕ
delivered_to id user db =
    count (λ d. d.event_id == id && d.recipient == user) db.notification_deliveries

-- A handled message has one delivery, and that to its recipient, if this was so for events that are
-- processed before.
Settled-delivered_to :
    (env : Env) (n : Notice) (id : ℕ) (before after : Db)
    → env.scan n.event_id ≡ some id
    → Settled env n before after
    → delivered_to id n.recipient before ≡ once (is_processed id before)
    → delivered_to id n.recipient after ≡ once (is_processed id after)
Settled-delivered_to env n id before after scanned (inl d) h = rw d.stores (
    ground (
      arith,
      d.scanned,
      d.first,
      d.delivers,
      d.recipient,
      eq_iff d.delivery.recipient n.recipient,
      eq_iff d.event.consumer_name consumer_name,
      d.consumer,
    ))
Settled-delivered_to env n id before after scanned (inr r) h = rw r.unchanged h

module _ (env : Env) (config : Config) where
  announced-keeps :
      (m : Published) (es : List OutboxEvent) (ms : List Published)
      → Memᴰ m ms
      → Memᴰ m (announced env config es ms)
  announced-keeps m [] ms h = h
  announced-keeps m (e ∷ es) ms h = announced-keeps m es _ (Memᴰ.tail h)

  announced-Mem :
      (e : OutboxEvent) (es : List OutboxEvent) (ms : List Published)
      → Memᴰ e es
      → Memᴰ (announcement env config e) (announced env config es ms)
  announced-Mem e [] ms h = elim h [ ]
  announced-Mem e (x ∷ es) ms (Memᴰ.head same) = announced-keeps _ es _ (Memᴰ.head (rw same refl))
  announced-Mem e (x ∷ es) ms (Memᴰ.tail h) = announced-Mem e es _ h

  -- A batch does not touch the inbox of the consumer.
  publish_batch-IsInbox : (w : World) → IsInbox w.db → IsInbox (publish_batch env config w).1.db
  publish_batch-IsInbox w h =
      Ends-always IsInbox _ (publish_batch-SameStory env config w) (λ _ db s. told db s)
        (Atomic-always IsInbox h λ _ db s. told db s)
    where
      told : (db : Db) → SameStory w.db db → IsInbox db
      told db s = rw s.elsewhere h

  -- Nor does it bring new ids.
  publish_batch-Unused :
      (w : World) → Unused env w.db → Unused env (publish_batch env config w).1.db
  publish_batch-Unused w h =
      Ends-always (Unused env) _ (publish_batch-SameStory env config w) (λ _ db s. told db s)
        (Atomic-always (Unused env) h λ _ db s. told db s)
    where
      told : (db : Db) → SameStory w.db db → Unused env db
      told db s = record {
        orders = rw s.elsewhere h.orders;
        payments = rw s.elsewhere h.payments;
        events = λ n.
            sym (contains-content (env.fresh n) db.outbox_events)
            ∙ rw s.contents (contains-content (env.fresh n) w.db.outbox_events ∙ h.events n);
        keys = rw s.elsewhere h.keys;
        deliveries = rw s.elsewhere h.deliveries;
      }

  outcome :
      (payload : Bytes) (n : Notice) (before : Db) (r : Result Unit × World)
      → r.0 ≡ ok tt
      → validate env payload ≡ some n
      → Ends (λ _ after. HandleOutcome env payload before after) (λ _ _. Unit) r
      → Settled env n before r.1.db
  outcome payload n before (ok u, w) good valid h =
      let (m, valid', settled) = h.as_stated in
      let same : m ≡ n = ground (arith, valid, valid') in
      subst (λ k. Settled env k before w.db) same settled
  outcome payload n before (err e, w) good valid h = cc

  -- The message of the event is on Kafka; the handling of it returns no error, and then the event is
  -- processed, with one delivery, which is to the user.
  pub record Notified (e : OutboxEvent) (user : String) (w : World) : Type 0 where
    pub sent : Memᴰ (announcement env config e) w.published
    pub handled : (handle env (encoded (announcement env config e).value) w).0 ≡ ok tt
    pub processed :
        is_processed e.id (handle env (encoded (announcement env config e).value) w).1.db ≡ true
    pub single :
        deliveries_of e.id (handle env (encoded (announcement env config e).value) w).1.db ≡ 1
    pub to_user :
        delivered_to e.id user (handle env (encoded (announcement env config e).value) w).1.db ≡ 1

  publish_batch-delivered_to :
      (id : ℕ) (user : String) (w : World)
      → delivered_to id user w.db ≡ once (is_processed id w.db)
      → delivered_to id user (publish_batch env config w).1.db
        ≡ once (is_processed id (publish_batch env config w).1.db)
  publish_batch-delivered_to id user w h =
      Ends-always (λ db. delivered_to id user db ≡ once (is_processed id db)) _
        (publish_batch-SameStory env config w) (λ _ db s. told db s)
        (Atomic-always (λ db. delivered_to id user db ≡ once (is_processed id db)) h
          λ _ db s. told db s)
    where
      told : (db : Db) → SameStory w.db db → delivered_to id user db ≡ once (is_processed id db)
      told db s = rw s.elsewhere h

  module _ (good : Reachable env) (delivers : (n : ℕ) → env.delivery n ≡ delivered)
      (named : (config.topic == "") ≡ false) where
    -- Each event that a batch claims comes to its recipient: its message is sent, the consumer
    -- handles it without an error, and then the event is processed, with exactly one delivery, which
    -- is to the user of its payload. So it is while the database and Kafka answer, if the user of the
    -- payload is the owner of the event's order and `uuid.Parse` accepts it, the topic has a name, the
    -- batch size is not negative, `uuid.New` gives no id that is in use, and each event had one
    -- delivery before if it was processed and none otherwise, this one to its user.
    pub publish_batch-Notified :
        (size : ℕ) (w : World) (e : OutboxEvent) (u : ℕ)
        → config.batch_size ≡ pos size
        → Memᴰ e (claimed (pos size) w.db.outbox_events)
        → (a : Addressed env w.db.orders e) → env.parse a.user ≡ some u
        → IsInbox w.db
        → delivered_to e.id a.user w.db ≡ once (is_processed e.id w.db)
        → Unused env w.db
        → Notified e a.user (publish_batch env config w).1
    publish_batch-Notified size w e u sized there a parsed inbox addressed unused =
        let v = (publish_batch env config w).1 in
        let all = publish_batch-PublishesAll env config good delivers named size w sized in
        let payload = encoded (announcement env config e).value in
        let n : Notice = record {
          event_id = env.render e.id;
          event_type = event_type_text e.event_type;
          recipient = a.user;
        } in
        let valid : validate env payload ≡ some n =
          validates env e a.user a.told ∙ ground (arith, parsed) in
        let handled =
          handle-Reachable env good n e.id (env.scan-render e.id) payload v valid
            (publish_batch-Unused w unused) in
        let settled =
          outcome payload n v.db (handle env payload v) handled valid
            (Ends-weaken _ (handle-Outcome env payload v) (λ _ _ h. h) (λ _ _ _. tt)) in
        let (k, scanned, done) =
          Settled-is_processed env n v.db (handle env payload v).1.db settled in
        let processed : is_processed e.id (handle env payload v).1.db ≡ true =
          ground (arith, scanned, env.scan-render e.id, done) in
        record {
          sent = rw all.messages (announced-Mem e _ w.published there);
          handled = handled;
          processed = processed;
          single =
              handle-IsInbox env payload v (publish_batch-IsInbox w inbox) e.id ∙ rw processed refl;
          to_user =
              Settled-delivered_to env n e.id v.db (handle env payload v).1.db
                (env.scan-render e.id) settled (publish_batch-delivered_to e.id a.user w addressed)
              ∙ rw processed refl;
        }

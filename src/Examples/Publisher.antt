-- ===== src/Examples/Publisher.antt =====
-- The properties of the publisher at concrete batches.
use go_order_service.Prelude.Int.{pos}
use go_order_service.Publisher.{Config, publish_batch}
use go_order_service.Publisher.Order.{claimed, Sends, publish_batch-Sends}
use go_order_service.Publisher.Progress.{PublishesAll, publish_batch-PublishesAll}
use go_order_service.Prelude.{refl, []}
use mathlib.Core.List.Memᴰ
use go_order_service.Prelude.Sorting.{sort_by}
use go_order_service.Messages.Decoding.{unmarshal-created}
use go_order_service.System.Delivery.{Notified, publish_batch-Notified}
use go_order_service.Examples.{scan, customer, env, env-Reachable}
use go_order_service.Examples.Worlds.{
  after_payment, later, later-Reachable, after_first, after_first-Unused, first_order, first_event,
}

abbrev config : Config
config = record { topic = "order.events.v1"; batch_size = pos 100 }

publish_batch-Sends_example :
    Sends env config
      (claimed (pos 100) after_payment.db.outbox_events)
      []
      (publish_batch env config after_payment).1.published
publish_batch-Sends_example = publish_batch-Sends env config after_payment

publish_batch-PublishesAll_example :
    PublishesAll env config
      (claimed (pos 100) after_payment.db.outbox_events)
      after_payment
      (publish_batch env config after_payment)
publish_batch-PublishesAll_example =
    publish_batch-PublishesAll env config env-Reachable (λ n. refl) refl 100 after_payment refl

publish_batch-Notified_example :
    Notified later config first_event customer (publish_batch later config after_first).1
unfolding sort_by scan
publish_batch-Notified_example =
    publish_batch-Notified later config later-Reachable (λ n. refl) refl 100 after_first first_event
      7 refl (Memᴰ.head refl)
      (record {
        order = first_order;
        user = customer;
        found = refl;
        told = unmarshal-created _;
        owner = refl;
      })
      refl (λ id. refl) refl after_first-Unused

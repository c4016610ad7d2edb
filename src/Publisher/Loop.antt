-- ===== src/Publisher/Loop.antt =====
-- internal/publisher/outbox_publisher.go: `OutboxPublisher.Run`, with what the context and the ticker
-- do after each batch as the input.
use go_order_service.Prelude.{Bool, List, [], ◌∷◌, if◌then◌else◌}
use go_order_service.Runtime.{Env, World}
use go_order_service.Publisher.{Config, publish_batch}

module _ (env : Env) (config : Config) where
  -- After each batch, whose error is only logged, either the context is done, or the ticker starts
  -- the next one. The first batch is made in any case. `true` says that the context is done.
  unfoldable pub run : List Bool → World → World
  run [] w = (publish_batch env config w).1
  run (done ∷ ticks) w =
      let (_, w') = publish_batch env config w in
      let rest = run ticks w' in if done then w' else rest

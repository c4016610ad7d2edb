-- ===== src/RedisClient.antt =====
-- Calls of a Redis server through github.com/redis/go-redis, which sends a command again when no
-- answer comes, and what the API server works on: the world and the Redis store.
use go_order_service.Prelude.{Option, none, some}
use go_order_service.Runtime.{World}

-- What becomes of a command: it is carried out and answered; it never arrives; it is carried out
-- and its answer is lost; or it is sent again after that, and the second answer comes.
pub data Reply : Type 0 where
  replied unsent unanswered repeated : Reply

-- A command is a function of the store; `none` is an error of the client.
abbrev pub exchange : {A Store : Type 0} → Reply → (Store → A × Store) → Store → Option A × Store
exchange replied command s = let (a, s') = command s in (some a, s')
exchange unsent command s = (none, s)
exchange unanswered command s = (none, (command s).1)
exchange repeated command s = let (a, s') = command (command s).1 in (some a, s')

pub record Site (Store : Type 0) : Type 0 where
  pub world : World
  pub store : Store

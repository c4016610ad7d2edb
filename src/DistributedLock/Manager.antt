-- ===== src/DistributedLock/Manager.antt =====
-- internal/distributedlock/lock.go: `Manager.Acquire` and `Lock.Release` with the errors of the
-- connection, at the time of the call and with the token that `uuid.NewString` gives.
use go_order_service.Prelude.{ℕ, String, Option, none, some}
use go_order_service.Runtime.{Env, tick}
use go_order_service.RedisClient.{Reply, exchange, Site}
use go_order_service.DistributedLock.{Redis, Lock, acquire, release}

-- `Acquire` returns a lock, `ErrLockNotAcquired`, or an error of the client.
pub data Acquired : Type 0 where
  locked : Lock → Acquired
  not_acquired unreachable : Acquired

abbrev pub acquired_of : Option (Option Lock) → Acquired
acquired_of none = unreachable
acquired_of (some none) = not_acquired
acquired_of (some (some l)) = locked l

-- `release` as a command without a value.
abbrev pub release_command :
    {Store : Type 0} → Redis Store → ℕ → ℕ → Lock → Store → Unit {0} × Store
release_command redis ttl now l s = (tt, release redis ttl now l s)

module _ {Store : Type 0} (env : Env) (reply : ℕ → Reply) (redis : Redis Store) (ttl : ℕ) where
  unfoldable pub acquire_lock : String → Site Store → Acquired × Site Store
  acquire_lock key x =
      let w = x.world in
      let token = env.render (env.fresh w.ticks) in
      let now = env.now (tick w).ticks in
      let (answer, s) = exchange (reply (tick w).ticks) (acquire redis ttl now key token) x.store in
      (acquired_of answer, record { world = tick (tick w); store = s })

  -- `Release`; its error is only logged.
  unfoldable pub release_lock : Lock → Site Store → Site Store
  release_lock l x =
      let w = x.world in
      record {
        world = tick w;
        store =
            (exchange (reply w.ticks) (release_command redis ttl (env.now w.ticks) l) x.store).1;
      }

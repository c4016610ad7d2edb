-- ===== src/Api/Exclusion.antt =====
-- The lock of an order, around its payment or cancellation.
use go_order_service.Prelude.{
  ℕ, suc, String, ◌≡◌, refl, ◌⊎◌, ◌≤◌, ◌<◌, ◌+◌, none, some, arith, string_eq, eq_iff,
}
use go_order_service.Runtime.{World, tick}
use go_order_service.RedisClient.{replied, Site}
use go_order_service.DistributedLock.{Lock, acquire, release}
use go_order_service.DistributedLock.Manager.{acquire_lock, release_lock}
use go_order_service.Api.{Response}
use go_order_service.Api.Server.{RouterConfig}
use go_order_service.Api.Locks.{order_lock_key, acquire_order_lock, under_lock}

-- The work is not done: the response says that the order is being processed, or that the lock could
-- not be asked for, and neither the database nor what Redis has is another.
pub record Refused {Store : Type 0} (server : RouterConfig Store) (x : Site Store)
    (p : Response × Site Store) : Type 0 where
  pub status : (p.0.status ≡ 409) ⊎ (p.0.status ≡ 500)
  pub same_db : p.1.world.db ≡ x.world.db
  pub same_locks :
      (t : ℕ) (k : String) → server.redis.get p.1.store t k ≡ server.redis.get x.store t k

module _ {Store : Type 0} (server : RouterConfig Store) (id : String)
    (work : World → Response × World) (x : Site Store) (ttl : ℕ) where
  -- When `Acquire` comes to Redis, and with which token.
  abbrev pub acquired_at : ℕ
  acquired_at = server.env.now (suc x.world.ticks)

  abbrev pub own_token : String
  own_token = server.env.render (server.env.fresh x.world.ticks)

  -- The world in which the work begins, and the lock that is held then.
  abbrev pub begun : World
  begun = tick (tick x.world)

  abbrev pub own_lock : Lock
  own_lock = record { key = order_lock_key id; token = own_token }

  -- When the release comes to Redis.
  abbrev pub released_at : ℕ
  released_at = server.env.now (work begun).1.ticks

  freed :
      (s : Store)
      → server.redis.get s released_at (order_lock_key id) ≡ some own_token
      → (t : ℕ) → released_at ≤ t
      → server.redis.get (release server.redis ttl released_at own_lock s) t (order_lock_key id)
        ≡ none
  unfolding release
  freed s mine t late = rw mine (
      ground (
        arith,
        eq_iff own_token own_token,
        server.redis.del-self s released_at t (order_lock_key id) late,
      ))

  -- The order's key is free when the lock is asked for, Redis answers, and the work takes less than
  -- the time to live.
  pub record IsQuick : Type 0 where
    pub managed : server.lock_ttl ≡ some ttl
    pub free : server.redis.get x.store acquired_at (order_lock_key id) ≡ none
    pub acquires : server.reply (suc x.world.ticks) ≡ replied
    pub releases : server.reply (work begun).1.ticks ≡ replied
    pub later : acquired_at ≤ released_at
    pub in_time : released_at < acquired_at + ttl

  -- The work is done while the lock is held, its response is sent, and the lock is free afterwards.
  pub record Done (p : Response × Site Store) : Type 0 where
    pub response : p.0 ≡ (work begun).0
    pub same_db : p.1.world.db ≡ (work begun).1.db
    pub holds :
        (t : ℕ)
        → acquired_at ≤ t
        → t < acquired_at + ttl
        → server.redis.get (acquire_order_lock server (some ttl) id x).1.store t (order_lock_key id)
          ≡ some own_token
    pub frees : (t : ℕ) → released_at ≤ t → server.redis.get p.1.store t (order_lock_key id) ≡ none

  -- A payment or a cancellation of an order that nobody has locked is carried out, and leaves the
  -- lock free, whether or not it succeeds, if Redis answers in time.
  pub under_lock-Done : IsQuick → Done (under_lock server id work x)
  unfolding under_lock acquire_lock acquire release_lock
  under_lock-Done q =
      let (wins, holds) =
        server.redis.set_nx-free x.store acquired_at ttl (order_lock_key id) own_token q.free in
      simp (q.managed, q.acquires, wins, q.releases)
        (record {
          response = refl;
          same_db = refl;
          holds = λ t low high. simp q.acquires (holds t low high);
          frees = λ t late. freed _ (holds released_at q.later q.in_time) t late;
        })

-- ===== src/Api/Locks.antt =====
-- internal/api/order_handler.go: the payment and the cancellation of an order under its lock.
use Prim.Native.String.{◌++◌ as append}
use go_order_service.Prelude.{ℕ, String, Option, none, some, if◌then◌else◌, ◌==◌, string_eq}
use go_order_service.Runtime.{World}
use go_order_service.RedisClient.{Site}
use go_order_service.DistributedLock.{Lock}
use go_order_service.DistributedLock.Manager.{
  Acquired, locked, not_acquired, unreachable, acquire_lock, release_lock,
}
use go_order_service.Api.{Response, write_json_error, with_claims}
use go_order_service.Api.Server.{RouterConfig, SiteHandler, with_store}
use go_order_service.Api.Orders.{pay_locked, cancel_locked}

abbrev pub order_lock_key : String → String
order_lock_key order_id = append "lock:order:" order_id

-- `acquireOrderLock` returns a lock, or nil where there is no lock manager; or it has responded.
pub data LockAnswer : Type 0 where
  proceed : Option Lock → LockAnswer
  refused : Response → LockAnswer

abbrev pub lock_answer : Acquired → LockAnswer
lock_answer (locked l) = proceed (some l)
lock_answer not_acquired = refused (write_json_error 409 "order is being processed")
lock_answer unreachable = refused (write_json_error 500 "failed to acquire order lock")

abbrev answered : {Store : Type 0} → Acquired × Site Store → LockAnswer × Site Store
answered (a, x) = (lock_answer a, x)

module _ {Store : Type 0} (server : RouterConfig Store) where
  abbrev pub acquire_order_lock : Option ℕ → String → Site Store → LockAnswer × Site Store
  acquire_order_lock none order_id x = (proceed none, x)
  acquire_order_lock (some ttl) order_id x =
      answered (acquire_lock server.env server.reply server.redis ttl (order_lock_key order_id) x)

  abbrev pub release_order_lock : Option ℕ → Option Lock → Site Store → Site Store
  release_order_lock (some ttl) (some l) x =
      release_lock server.env server.reply server.redis ttl l x
  release_order_lock _ none x = x
  release_order_lock none (some l) x = x

  abbrev pub and_release : Option Lock → Response × Site Store → Response × Site Store
  and_release l (response, x) = (response, release_order_lock server.lock_ttl l x)

  -- After `acquireOrderLock`: the work on the order, then the deferred release.
  abbrev pub go_on : (World → Response × World) → LockAnswer × Site Store → Response × Site Store
  go_on work (refused response, x) = (response, x)
  go_on work (proceed l, x) = and_release l (with_store (work x.world) x.store)

  unfoldable pub under_lock :
      String → (World → Response × World) → Site Store → Response × Site Store
  under_lock order_id work x = go_on work (acquire_order_lock server.lock_ttl order_id x)

  unfoldable pub handle_pay_order : SiteHandler Store
  handle_pay_order r = with_claims r.claims λ c x.
      if r.id == ""
      then (write_json_error 400 "order id is required", x)
      else under_lock r.id (pay_locked server.env r c) x

  unfoldable pub handle_cancel_order : SiteHandler Store
  handle_cancel_order r = with_claims r.claims λ c x.
      if r.id == ""
      then (write_json_error 400 "order id is required", x)
      else under_lock r.id (cancel_locked server.env r c) x

-- ===== src/Api/Router.antt =====
-- internal/api/router.go: `NewRouter`, as the handler that it returns.
use go_order_service.Prelude.{ℕ, String, Bool, ◌&&◌, not, [], if◌then◌else◌, ◌==◌, string_eq}
use go_order_service.Runtime.{tick}
use go_order_service.RedisClient.{Reply, replied, repeated}
use go_order_service.Api.{Request, Response, text, write_header}
use go_order_service.Api.Server.{
  Endpoint, healthz, readyz, metrics_page, register, login, refresh, logout, me, create_order,
  list_orders, get_order, pay_order, cancel_order, route_pattern, Routing, matched,
  method_not_allowed, not_found, RouterConfig, SiteHandler, on_world,
}
use go_order_service.Api.Auth.{
  handle_register, handle_login, handle_refresh, handle_logout, handle_me,
}
use go_order_service.Api.Orders.{handle_create_order, handle_list_orders, handle_get_order}
use go_order_service.Api.Locks.{handle_pay_order, handle_cancel_order}
use go_order_service.Api.Middleware.{
  cors_middleware, metrics_middleware, require_auth, rate_limit_middleware,
}

abbrev pub write_text : ℕ → String → Response
write_text status body = record { status = status; headers = []; cookies = []; content = text body }

abbrev pub pattern_of : Routing → String → String
pattern_of (matched e) path = route_pattern e
pattern_of _ path = path

-- Whether a command is answered.
abbrev pub is_answered : Reply → Bool
is_answered replied = Bool.true
is_answered repeated = Bool.true
is_answered _ = Bool.false

module _ {Store : Type 0} (server : RouterConfig Store) where
  -- `handleReadyz`, which pings the database, and then Redis.
  unfoldable pub handle_readyz : SiteHandler Store
  handle_readyz r x =
      let w = x.world in
      if server.env.fault w.ticks
      then (write_text 503 "database unavailable", record x { world = tick w })
      else if not (is_answered (server.reply (tick w).ticks))
      then (write_text 503 "redis unavailable", record x { world = tick (tick w) })
      else (write_text 200 "ready", record x { world = tick (tick w) })

  abbrev pub has_limiter : Bool
  has_limiter = server.rate_limit_enabled && server.rate_limiter

  -- The group `app`, and the routes of it that have a limit of their own.
  abbrev pub app : SiteHandler Store → SiteHandler Store
  app next =
      if has_limiter
      then rate_limit_middleware server has_limiter "global" server.rate_limit_requests_per_minute
          next
      else next

  abbrev pub limited_app : String → ℕ → SiteHandler Store → SiteHandler Store
  limited_app scope limit next = app (rate_limit_middleware server has_limiter scope limit next)

  abbrev pub with_id : String → SiteHandler Store → SiteHandler Store
  with_id id next r x = next (record r { id = id }) x

  unfoldable pub endpoint : Endpoint → SiteHandler Store
  endpoint healthz r x = (write_text 200 "ok", x)
  endpoint readyz r x = handle_readyz r x
  endpoint metrics_page r x = (write_text 200 (server.expose x.world.metrics), x)
  endpoint register r x =
      limited_app "auth_register" server.auth_rate_limit_requests_per_minute
        (on_world (handle_register server.env server.crypto server.auth server.cookie_secure)) r x
  endpoint login r x =
      limited_app "auth_login" server.login_rate_limit_requests_per_minute
        (on_world (handle_login server.env server.crypto server.auth server.cookie_secure)) r x
  endpoint refresh r x =
      app (on_world (handle_refresh server.env server.crypto server.auth server.cookie_secure)) r x
  endpoint logout r x =
      app (on_world (handle_logout server.env server.crypto server.auth server.cookie_secure)) r x
  endpoint me r x =
      app
        (require_auth server
          (on_world (handle_me server.env server.crypto server.auth server.cookie_secure)))
        r x
  endpoint create_order r x =
      app (require_auth server (on_world (handle_create_order server.env))) r x
  endpoint list_orders r x =
      app (require_auth server (on_world (handle_list_orders server.env))) r x
  endpoint (get_order id) r x =
      with_id id (app (require_auth server (on_world (handle_get_order server.env)))) r x
  endpoint (pay_order id) r x = with_id id (app (require_auth server (handle_pay_order server))) r x
  endpoint (cancel_order id) r x =
      with_id id (app (require_auth server (handle_cancel_order server))) r x

  unfoldable pub dispatch : Routing → SiteHandler Store
  dispatch (matched e) r x = endpoint e r x
  dispatch method_not_allowed r x = (write_header 405, x)
  dispatch not_found r x = (write_text 404 "404 page not found", x)

  abbrev pub find_route : Request → Routing
  find_route r = server.chi.find r.method r.path

  -- A request that `corsMiddleware` answers has no route.
  abbrev pub pattern_for : Request → String
  pattern_for r =
      if not (server.cors_allowed_origin == "") && r.method == "OPTIONS"
      then r.path
      else pattern_of (find_route r) r.path

  abbrev pub routed : SiteHandler Store
  routed r x = dispatch (find_route r) r x

  unfoldable pub serve : SiteHandler Store
  serve = metrics_middleware pattern_for (
      if not (server.cors_allowed_origin == "")
      then cors_middleware server.cors_allowed_origin routed
      else routed)

-- ===== src/Api/Server.antt =====
-- internal/api/router.go: what the server is made of, and the routes that it registers with chi.
use go_order_service.Prelude.{ℕ, String, ◌≡◌, Bool, Option, none, some, List}
use go_order_service.Runtime.{Env, World, Metric}
use go_order_service.RedisClient.{Reply, Site}
use go_order_service.Auth.{Crypto, Config}
use go_order_service.DistributedLock.{Redis}
use go_order_service.RateLimit.{Counters}
use go_order_service.Api.{Request, Response, Handler}

-- The registered routes, with what chi takes for the parameter `id`.
pub data Endpoint : Type 0 where
  healthz readyz metrics_page : Endpoint
  register login refresh logout me : Endpoint
  create_order list_orders : Endpoint
  get_order pay_order cancel_order : String → Endpoint

-- The method and the pattern that a route is registered with; `Handle` takes any method.
abbrev pub route_method : Endpoint → Option String
route_method healthz = some "GET"
route_method readyz = some "GET"
route_method metrics_page = none
route_method register = some "POST"
route_method login = some "POST"
route_method refresh = some "POST"
route_method logout = some "POST"
route_method me = some "GET"
route_method create_order = some "POST"
route_method list_orders = some "GET"
route_method (get_order id) = some "GET"
route_method (pay_order id) = some "POST"
route_method (cancel_order id) = some "POST"

abbrev pub route_pattern : Endpoint → String
route_pattern healthz = "/healthz"
route_pattern readyz = "/readyz"
route_pattern metrics_page = "/metrics"
route_pattern register = "/auth/register"
route_pattern login = "/auth/login"
route_pattern refresh = "/auth/refresh"
route_pattern logout = "/auth/logout"
route_pattern me = "/me"
route_pattern create_order = "/orders"
route_pattern list_orders = "/orders"
route_pattern (get_order id) = "/orders/{id}"
route_pattern (pay_order id) = "/orders/{id}/pay"
route_pattern (cancel_order id) = "/orders/{id}/cancel"

-- The router of github.com/go-chi/chi: which route it finds for a method and a path. It finds one
-- only under the method that the route is registered with.
pub data Routing : Type 0 where
  matched : Endpoint → Routing
  method_not_allowed not_found : Routing

pub record Chi : Type 0 where
  pub find : String → String → Routing
  pub find-method :
      (method path registered : String) (e : Endpoint)
      → find method path ≡ matched e
      → route_method e ≡ some registered
      → method ≡ registered

-- `RouterConfig`, with the services and the libraries that they stand on. `lock_ttl` is the time to
-- live of the lock manager, if there is one, `rate_limiter` says whether there is a limiter, and
-- `expose` is the text of `promhttp.Handler`. A limit that is not positive is zero.
pub record RouterConfig (Store : Type 0) : Type 0 where
  pub env : Env
  pub crypto : Crypto
  pub auth : Config
  pub redis : Redis Store
  pub counters : Counters Store
  pub reply : ℕ → Reply
  pub chi : Chi
  pub expose : List Metric → String
  pub cookie_secure : Bool
  pub lock_ttl : Option ℕ
  pub rate_limiter : Bool
  pub rate_limit_enabled : Bool
  pub rate_limit_requests_per_minute : ℕ
  pub auth_rate_limit_requests_per_minute : ℕ
  pub login_rate_limit_requests_per_minute : ℕ
  pub cors_allowed_origin : String

abbrev pub SiteHandler : Type 0 → Type 0
SiteHandler Store = Request → Site Store → Response × Site Store

-- A handler that does not use Redis.
abbrev pub with_store : {Store : Type 0} → Response × World → Store → Response × Site Store
with_store (response, w) s = (response, record { world = w; store = s })

abbrev pub on_world : {Store : Type 0} → Handler → SiteHandler Store
on_world handle r x = with_store (handle r x.world) x.store

-- ===== src/Examples/Server.antt =====
-- A server: concrete libraries, a Redis store with locks and counters, and a router.
use go_order_service.Prelude.{
  ℕ, String, ◌≡◌, Bool, true, ◌&&◌, none, some, List, [], ◌∷◌, arith, if◌then◌else◌, ◌==◌,
  string_eq, eq_iff,
}
use go_order_service.Prelude.Int.{pos}
use go_order_service.Encoding.{num, str, obj, field, end, encoded}
use go_order_service.Runtime.{World, Metric}
use go_order_service.RedisClient.{Reply, replied, Site}
use go_order_service.Auth.{Claims}
use go_order_service.DistributedLock.{Redis}
use go_order_service.RateLimit.{Counters}
use go_order_service.Api.{Request}
use go_order_service.Api.Server.{
  Endpoint, create_order, list_orders, pay_order, route_method, Routing, matched, not_found,
  RouterConfig,
}
use go_order_service.Examples.{env, customer}
use go_order_service.Examples.Auth.{crypto, config}
use go_order_service.Examples.DistributedLock as Locks
use go_order_service.Examples.RateLimit as Limits
use go_order_service.Examples.RateLimit.{Counts}

abbrev pub Store : Type 0
Store = List Locks.Entry × Counts

abbrev pub set_nx : ℕ → String → String → ℕ → Store → Bool × Store
set_nx now key value ttl s = let (b, es) = Locks.set_nx now key value ttl s.0 in (b, (es, s.1))

abbrev pub redis : Redis Store
redis = record {
  get = λ s now key. Locks.get s.0 now key;
  set_nx = set_nx;
  del = λ now key s. (Locks.del now key s.0, s.1);
  set_nx-taken = λ s. Locks.set_nx-taken_lem s.0;
  set_nx-free = λ s. Locks.set_nx-free_lem s.0;
  set_nx-other = λ s. Locks.set_nx-other_lem s.0;
  del-other = λ s. Locks.del-other_lem s.0;
  del-self = λ s. Locks.del-self_lem s.0;
}

abbrev pub incr : ℕ → String → Store → ℕ × Store
incr now key s = let (n, counts) = Limits.incr now key s.1 in (n, (s.0, counts))

abbrev pub expire : ℕ → String → ℕ → Store → Unit {0} × Store
expire now key ttl s = let (u, counts) = Limits.expire now key ttl s.1 in (u, (s.0, counts))

abbrev pub counters : Counters Store
counters = record {
  entry = λ s key. s.1 key;
  incr = incr;
  expire = expire;
  incr-value = λ s. Limits.counters.incr-value s.1;
  incr-entry = λ s. Limits.incr-entry_lem s.1;
  incr-other = λ s. Limits.incr-other_lem s.1;
  expire-entry = λ s. Limits.expire-entry_lem s.1;
  expire-other = λ s. Limits.expire-other_lem s.1;
}

-- Three of the routes.
abbrev pub find : String → String → Routing
find method path =
    if method == "POST" && path == "/orders"
    then matched create_order
    else if method == "GET" && path == "/orders"
    then matched list_orders
    else if method == "POST" && path == "/orders/111/pay"
    then matched (pay_order "111")
    else not_found

pub find-method_lem :
    (method path registered : String) (e : Endpoint)
    → find method path ≡ matched e
    → route_method e ≡ some registered
    → method ≡ registered
find-method_lem method path registered e found known =
    ground (arith, eq_iff method "POST", eq_iff method "GET")

abbrev pub always_replied : ℕ → Reply
always_replied n = replied

abbrev pub no_page : List Metric → String
no_page ms = ""

abbrev pub server : RouterConfig Store
server = record {
  env = env;
  crypto = crypto;
  auth = config;
  redis = redis;
  counters = counters;
  reply = always_replied;
  chi = record { find = find; find-method = find-method_lem };
  expose = no_page;
  cookie_secure = true;
  lock_ttl = some 10000000;
  rate_limiter = true;
  rate_limit_enabled = true;
  rate_limit_requests_per_minute = 60;
  auth_rate_limit_requests_per_minute = 10;
  login_rate_limit_requests_per_minute = 5;
  cors_allowed_origin = "https://shop.example";
}

abbrev pub site : World → Site Store
site w = record { world = w; store = ([], Limits.no_counts) }

abbrev pub ada_claims : Claims
ada_claims = record {
  user_id = customer;
  email = "ada@example.com";
  role = "customer";
  subject = customer;
  issued_at = 0;
  expires_at = 2;
}

-- A request for a new order.
abbrev pub post_order : Request
post_order = record {
  method = "POST";
  path = "/orders";
  headers = ("Idempotency-Key", "first") ∷ [];
  cookies = [];
  remote_addr = "10.0.0.1:5000";
  body = encoded (
      obj (
        field "amount_cents" (num (pos 1250))
          (field "Currency" (str "EUR") (field "description" (str "books") end))));
  claims = none;
  id = "";
}

-- The same with the token of a login.
abbrev pub post_order_as_ada : Request
post_order_as_ada = record post_order {
  headers = ("Authorization", "Bearer token") ∷ ("Idempotency-Key", "first") ∷ [];
}

abbrev pub get_orders : Request
get_orders = record post_order { method = "GET"; headers = [] }

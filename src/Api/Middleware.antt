-- ===== src/Api/Middleware.antt =====
-- internal/api/middleware.go, rate_limit_middleware.go, cors_middleware.go and metrics_middleware.go:
-- what stands in front of the handlers. Durations are not observed.
use go_order_service.Prelude.{
  ℕ, suc, String, Bool, ◌&&◌, ◌||◌, not, Option, none, some, List, [], ◌∷◌, ◌/◌, ltb, if◌then◌else◌,
  ◌==◌, string_eq, nat_eq,
}
use go_order_service.Prelude.Strings.{trim_space, mentions, before, cut, cut_last, fields, decimal}
use go_order_service.Runtime.{
  Result, ok, err, World, tick, Metric, rate_limit_allowed, rate_limit_blocked, http_requests,
}
use go_order_service.Messages.{same_name}
use go_order_service.RedisClient.{Site}
use go_order_service.Auth.{Claims, parse_access_token}
use go_order_service.RateLimit.{LimitResult, Timing, allow}
use go_order_service.Api.{Request, Response, get_header, set_header, write_json_error, write_header}
use go_order_service.Api.Server.{RouterConfig, SiteHandler}

-- The token of a header `Bearer token`.
abbrev pub bearer_token : List String → Option String
bearer_token (scheme ∷ token ∷ []) = if same_name scheme "Bearer" then some token else none
bearer_token _ = none

-- `net.SplitHostPort`, for the host; `none` is an error.
abbrev pub check_host : String → String → String → Option String
check_host host opened closed =
    if mentions 0x5b opened || mentions 0x5d closed then none else some host

abbrev pub bracketed_host : Option (String × String) → String → Option String
bracketed_host none rest = none
bracketed_host (some (host, String.[])) rest = none
bracketed_host (some (host, String.◌∷◌ c port)) rest =
    if not (Prim.Native.Char.code c == 0x3a) || mentions 0x3a port
    then none
    else check_host host rest port

abbrev pub plain_host : Option (String × String) → String → Option String
plain_host none whole = none
plain_host (some (host, port)) whole =
    if mentions 0x3a host then none else check_host host whole whole

unfoldable pub split_host : String → Option String
split_host String.[] = none
split_host (String.◌∷◌ c rest) =
    if Prim.Native.Char.code c == 0x5b
    then bracketed_host (cut 0x5d rest) rest
    else plain_host (cut_last 0x3a (String.◌∷◌ c rest)) (String.◌∷◌ c rest)

abbrev pub or_addr : Option String → String → String
or_addr none addr = addr
or_addr (some host) addr = host

-- `clientIPFromRequest`.
unfoldable pub client_ip : Request → String
client_ip r =
    let forwarded = trim_space (before 0x2c (get_header "X-Forwarded-For" r.headers)) in
    let real = trim_space (get_header "X-Real-IP" r.headers) in
    if not (forwarded == "")
    then forwarded
    else (if not (real == "") then real else or_addr (split_host r.remote_addr) r.remote_addr)

abbrev pub count_site : {Store : Type 0} → Metric → Site Store → Site Store
count_site m x = record x { world = record x.world { metrics = m ∷ x.world.metrics } }

-- The headers of `corsMiddleware`.
abbrev pub cors_headers : String → Request → Response → Response
cors_headers allowed r response =
    let origin = get_header "Origin" r.headers in
    if not (allowed == "") && origin == allowed
    then set_header "Access-Control-Allow-Origin" origin (
        set_header "Access-Control-Allow-Credentials" "true" (
          set_header "Access-Control-Allow-Methods" "GET, POST, OPTIONS" (
            set_header "Access-Control-Allow-Headers" "Content-Type, Authorization, Idempotency-Key"
              (set_header "Vary" "Origin" response))))
    else response

-- The response with what a middleware has set before.
abbrev pub map_response : {S : Type 0} → (Response → Response) → Response × S → Response × S
map_response f (response, s) = (f response, s)

abbrev pub at_least_one : ℕ → ℕ
at_least_one n = if ltb n 1 then 1 else n

abbrev pub limit_headers : LimitResult → Response → Response
limit_headers l response =
    set_header "RateLimit-Limit" (decimal l.limit)
      (set_header "RateLimit-Remaining" (decimal l.remaining) response)

module _ {Store : Type 0} where
  unfoldable pub cors_middleware : String → SiteHandler Store → SiteHandler Store
  cors_middleware allowed next r x =
      map_response (cors_headers allowed r)
        (if r.method == "OPTIONS" then (write_header 204, x) else next r x)

  -- `metricsMiddleware`, with the pattern of the route, or the path where none is found.
  abbrev pub counted_request : String → String → Response × Site Store → Response × Site Store
  counted_request method pattern (response, x) =
      (response, count_site (http_requests method pattern response.status) x)

  unfoldable pub metrics_middleware : (Request → String) → SiteHandler Store → SiteHandler Store
  metrics_middleware pattern next r x = counted_request r.method (pattern r) (next r x)

module _ {Store : Type 0} (server : RouterConfig Store) where
  -- After `ParseAccessToken`.
  abbrev pub admit :
      SiteHandler Store → Request → Store → Result Claims × World → Response × Site Store
  admit next r s (err _, w) =
      (write_json_error 401 "invalid access token", record { world = w; store = s })
  admit next r s (ok c, w) = next (record r { claims = some c }) (record { world = w; store = s })

  abbrev pub admit_token :
      SiteHandler Store → Request → Option String → Site Store → Response × Site Store
  admit_token next r none x = (write_json_error 401 "invalid authorization header", x)
  admit_token next r (some token) x =
      admit next r x.store (parse_access_token server.env server.crypto server.auth token x.world)

  unfoldable pub require_auth : SiteHandler Store → SiteHandler Store
  require_auth next r x =
      let header = get_header "Authorization" r.headers in
      if header == ""
      then (write_json_error 401 "missing authorization header", x)
      else admit_token next r (bearer_token (fields header)) x

  -- The three calls of `Allow`, numbered whether or not the last one is made.
  abbrev pub timing : World → Timing
  timing w = record {
    now = server.env.now w.ticks;
    incr_at = server.env.now (suc w.ticks);
    expire_at = server.env.now (suc (suc w.ticks));
    incr_reply = server.reply (suc w.ticks);
    expire_reply = server.reply (suc (suc w.ticks));
  }

  -- After `Allow`.
  abbrev pub limited :
      String → SiteHandler Store → Request → Option LimitResult → Site Store → Response × Site Store
  limited scope next r none x = (write_json_error 500 "rate limiter unavailable", x)
  limited scope next r (some l) x = map_response (limit_headers l) (
      if l.allowed then next r (count_site (rate_limit_allowed scope) x) else (
        set_header "Retry-After" (decimal (at_least_one (l.retry_after / 1000000)))
            (write_json_error 429 "rate limit exceeded"),
        count_site (rate_limit_blocked scope) x,
      ))

  unfoldable pub rate_limit_middleware : Bool → String → ℕ → SiteHandler Store → SiteHandler Store
  rate_limit_middleware limiter scope limit next r x =
      if not limiter || limit == 0
      then next r x
      else (let w = x.world in
          let (l, s) =
            allow server.counters (timing w) scope (client_ip r) limit 60000000 x.store in
          limited scope next r l (record { world = tick (tick (tick w)); store = s }))

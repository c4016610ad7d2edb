-- ===== src/Api/Access/Turned.antt =====
-- How the middleware passes on that a request is turned away.
use go_order_service.Prelude.{
  ℕ, suc, ◌&&◌, ℕ, String, ◌≡◌, refl, ◌⊎◌, inl, inr, Bool, true, false, Option, none, some, not,
  ◌||◌, if◌then◌else◌, ◌==◌, string_eq, nat_eq, arith, ◌∙◌,
}
use go_order_service.Prelude.Strings.{fields}
use go_order_service.Runtime.{Result, ok, err}
use go_order_service.RedisClient.{Site}
use go_order_service.Auth.{Claims, accept, accepts_method, parse_access_token}
use go_order_service.RateLimit.{LimitResult}
use go_order_service.Api.{Request, Response, get_header, set_header}
use go_order_service.Api.Server.{RouterConfig, SiteHandler}
use go_order_service.Api.Middleware.{
  bearer_token, map_response, limit_headers, admit, admit_token, require_auth, limited,
  rate_limit_middleware, cors_headers, cors_middleware, metrics_middleware,
}

set_header-status :
    (name value : String) (r : Response) → (set_header name value r).status ≡ r.status
set_header-status name value r = ground arith

limit_headers-status : (l : LimitResult) (r : Response) → (limit_headers l r).status ≡ r.status
limit_headers-status l r = ground arith

cors_headers-status :
    (allowed : String) (q : Request) (r : Response) → (cors_headers allowed q r).status ≡ r.status
cors_headers-status allowed q r = ground arith

-- The limiter makes three calls, if it is there and has a limit.
abbrev pub after_limiter : Bool → ℕ → ℕ → ℕ
after_limiter limiter limit call =
    if limiter && not (limit == 0) then suc (suc (suc call)) else call

module _ {Store : Type 0} (server : RouterConfig Store) where
  -- The header `Authorization` has a token that is accepted by the clock at a call.
  pub record Bears (call : ℕ) (r : Request) : Type 0 where
    pub token : String
    pub given : bearer_token (fields (get_header "Authorization" r.headers)) ≡ some token
    pub claims : Claims
    pub accepted :
        accept (server.crypto.verify (server.env.now call) accepts_method token) ≡ ok claims

  -- The request is turned away: without a valid token, by a limit, or since the limiter fails. The
  -- database is as it was.
  pub record TurnedAway (x : Site Store) (p : Response × Site Store) : Type 0 where
    pub status : (p.0.status ≡ 401) ⊎ (p.0.status ≡ 429) ⊎ (p.0.status ≡ 500)
    pub unchanged : p.1.world.db ≡ x.world.db

  -- So it is with a request that comes to a handler at a call.
  abbrev pub Shuts : ℕ → SiteHandler Store → Request → Type 0
  Shuts call handle r = (x : Site Store) → x.world.ticks ≡ call → TurnedAway x (handle r x)

  admit-Shuts :
      (next : SiteHandler Store) (r : Request) (s : Store) (token : String) (x : Site Store)
      → ((c : Claims)
          → accept (server.crypto.verify (server.env.now x.world.ticks) accepts_method token) ≡ ok c
          → ⊥)
      → TurnedAway x (
          admit server next r s
            (parse_access_token server.env server.crypto server.auth token x.world))
  unfolding parse_access_token
  admit-Shuts next r s token x never =
      by_claims (accept (server.crypto.verify (server.env.now x.world.ticks) accepts_method token))
        never
    where
      by_claims :
          (c : Result Claims)
          → ((d : Claims) → c ≡ ok d → ⊥)
          → TurnedAway x (
              admit server next r s
                (c, record x.world { ticks = Prim.Native.Nat.ℕ.suc x.world.ticks }))
      by_claims (ok c) never = absurd (never c refl)
      by_claims (err e) never = record { status = inl refl; unchanged = refl }

  admit_token-Shuts :
      (next : SiteHandler Store) (r : Request) (token : Option String) (x : Site Store)
      → bearer_token (fields (get_header "Authorization" r.headers)) ≡ token
      → ¬ Bears x.world.ticks r
      → TurnedAway x (admit_token server next r token x)
  admit_token-Shuts next r none x given never = record { status = inl refl; unchanged = refl }
  admit_token-Shuts next r (some token) x given never =
      admit-Shuts next r x.store token x
        λ c good. never (record { token = token; given = given; claims = c; accepted = good })

  TurnedAway-if :
      (b : Bool) (x : Site Store) (p q : Response × Site Store)
      → (b ≡ true → TurnedAway x p)
      → (b ≡ false → TurnedAway x q)
      → TurnedAway x (if b then p else q)
  TurnedAway-if true x p q h k = h refl
  TurnedAway-if false x p q h k = k refl

  pub require_auth-Shuts :
      (call : ℕ) (next : SiteHandler Store) (r : Request)
      → ¬ Bears call r
      → Shuts call (require_auth server next) r
  unfolding require_auth
  require_auth-Shuts call next r never x at_call =
      TurnedAway-if (get_header "Authorization" r.headers == "") x _ _
        (λ _. record { status = inl refl; unchanged = refl })
        λ _. admit_token-Shuts next r _ x refl (rw at_call never)

  map_response-Shuts :
      (f : Response → Response) (x : Site Store) (p : Response × Site Store)
      → ((response : Response) → (f response).status ≡ response.status)
      → TurnedAway x p
      → TurnedAway x (map_response f p)
  map_response-Shuts f x (response, y) same h = record {
    status = rw (same response) h.status;
    unchanged = h.unchanged;
  }

  limited-Shuts :
      (scope : String) (next : SiteHandler Store) (r : Request) (l : Option LimitResult)
      (x y : Site Store)
      → y.world.db ≡ x.world.db
      → Shuts y.world.ticks next r
      → TurnedAway x (limited server scope next r l y)
  limited-Shuts scope next r none x y same h = record { status = inr (inr refl); unchanged = same }
  limited-Shuts scope next r (some l) x y same h =
      map_response-Shuts (limit_headers l) x _ (limit_headers-status l) (
        TurnedAway-if l.allowed x _ _
          (λ _.
            let away = h (record y { world = record y.world { metrics = _ } }) refl in
            record { status = away.status; unchanged = away.unchanged ∙ same })
          (λ _. record { status = inr (inl (ground arith)); unchanged = same }))

  pub rate_limit_middleware-Shuts :
      (call : ℕ) (limiter : Bool) (scope : String) (limit : ℕ) (next : SiteHandler Store)
      (r : Request)
      → Shuts (after_limiter limiter limit call) next r
      → Shuts call (rate_limit_middleware server limiter scope limit next) r
  unfolding rate_limit_middleware
  rate_limit_middleware-Shuts call limiter scope limit next r h x at_call =
      TurnedAway-if (not limiter || limit == 0) x _ _ (λ skips. h x (ground (arith, at_call)))
        (λ asks.
          limited-Shuts scope next r _ x _ refl λ y later. h y (later ∙ ground (arith, at_call)))

  pub cors_middleware-Shuts :
      (call : ℕ) (allowed : String) (next : SiteHandler Store) (r : Request)
      → (r.method == "OPTIONS") ≡ false
      → Shuts call next r
      → Shuts call (cors_middleware allowed next) r
  unfolding cors_middleware
  cors_middleware-Shuts call allowed next r other h x at_call =
      map_response-Shuts (cors_headers allowed r) x _ (cors_headers-status allowed r)
        (TurnedAway-if (r.method == "OPTIONS") x _ _ (λ options. cc) (λ _. h x at_call))

  pub metrics_middleware-Shuts :
      (call : ℕ) (pattern : Request → String) (next : SiteHandler Store) (r : Request)
      → Shuts call next r
      → Shuts call (metrics_middleware pattern next) r
  unfolding metrics_middleware
  metrics_middleware-Shuts call pattern next r h x at_call = record {
    status = (h x at_call).status;
    unchanged = (h x at_call).unchanged;
  }

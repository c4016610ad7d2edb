-- ===== src/Api/Frames.antt =====
-- What the middleware and the locks leave of a property of the database.
use go_order_service.Prelude.{
  ℕ, String, ◌≡◌, refl, Bool, true, false, Option, none, some, not, ◌||◌, ◌==◌, string_eq, nat_eq,
  if◌then◌else◌,
}
use go_order_service.Schema.{Db}
use go_order_service.Runtime.{Error, Result, ok, err, World}
use go_order_service.RedisClient.{Site}
use go_order_service.Auth.{Claims, parse_access_token}
use go_order_service.RateLimit.{LimitResult}
use go_order_service.DistributedLock.{Lock}
use go_order_service.DistributedLock.Manager.{acquire_lock, release_lock}
use go_order_service.Api.{Request, Response, Handler, get_header, respond, with_claims, with_body}
use go_order_service.Api.Server.{RouterConfig, SiteHandler, on_world}
use go_order_service.Api.Locks.{
  LockAnswer, proceed, refused, acquire_order_lock, release_order_lock, go_on, under_lock,
}
use go_order_service.Api.Middleware.{
  map_response, cors_headers, limit_headers, cors_middleware, metrics_middleware, admit,
  admit_token, require_auth, limited, rate_limit_middleware,
}
use go_order_service.Api.Router.{has_limiter, app}

-- A property of the database that work on the world, or a handler, leaves.
pub record After (I : Db → Type 0) (p : Response × World) : Type 0 where
  pub holds : I p.1.db

pub record SiteAfter (I : Db → Type 0) {Store : Type 0} (p : Response × Site Store) : Type 0 where
  pub holds : I p.1.world.db

module _ (I : Db → Type 0) where
  -- The property holds afterwards if it holds before.
  abbrev pub WorkKeeps : (World → Response × World) → Type 0
  WorkKeeps work = (w : World) → I w.db → After I (work w)

  pub respond-Keeps :
      {A : Type 0} (good : A → Response) (bad : Error → Response) (r : Result A × World)
      → I r.1.db
      → After I (respond good bad r)
  unfolding respond
  respond-Keeps good bad (ok a, w) i = record { holds = i }
  respond-Keeps good bad (err e, w) i = record { holds = i }

  pub with_claims-Keeps :
      (claims : Option Claims) (handle : Claims → World → Response × World)
      → ((c : Claims) → WorkKeeps (handle c))
      → WorkKeeps (with_claims claims handle)
  unfolding with_claims
  with_claims-Keeps none handle h w i = record { holds = i }
  with_claims-Keeps (some c) handle h w i = h c w i

  pub with_body-Keeps :
      {A : Type 0} (body : Option A) (handle : A → World → Response × World)
      → ((a : A) → WorkKeeps (handle a))
      → WorkKeeps (with_body body handle)
  unfolding with_body
  with_body-Keeps none handle h w i = record { holds = i }
  with_body-Keeps (some a) handle h w i = h a w i

  pub After-if :
      (b : Bool) (p q : Response × World) → After I p → After I q → After I (if b then p else q)
  After-if true p q h k = h
  After-if false p q h k = k

  module _ {Store : Type 0} where
    abbrev pub KeepsAt : SiteHandler Store → Request → Type 0
    KeepsAt handle r = (x : Site Store) → I x.world.db → SiteAfter I (handle r x)

    abbrev pub Keeps : SiteHandler Store → Type 0
    Keeps handle = (r : Request) → KeepsAt handle r

    pub SiteAfter-if :
        (b : Bool) (p q : Response × Site Store)
        → SiteAfter I p
        → SiteAfter I q
        → SiteAfter I (if b then p else q)
    SiteAfter-if true p q h k = h
    SiteAfter-if false p q h k = k

    pub on_world-Keeps :
        (handle : Handler) → ((r : Request) → WorkKeeps (handle r)) → Keeps (on_world handle)
    on_world-Keeps handle h r x i = record { holds = (h r x.world i).holds }

    pub site_claims-Keeps :
        (claims : Option Claims) (handle : Claims → Site Store → Response × Site Store)
        → ((c : Claims) (x : Site Store) → I x.world.db → SiteAfter I (handle c x))
        → (x : Site Store) → I x.world.db
        → SiteAfter I (with_claims claims handle x)
    unfolding with_claims
    site_claims-Keeps none handle h x i = record { holds = i }
    site_claims-Keeps (some c) handle h x i = h c x i

    map_response-Keeps :
        (f : Response → Response) (p : Response × Site Store)
        → SiteAfter I p
        → SiteAfter I (map_response f p)
    map_response-Keeps f (response, x) i = record { holds = i.holds }

    pub cors_middleware-Keeps :
        (allowed : String) (next : SiteHandler Store) (r : Request)
        → KeepsAt next r
        → KeepsAt (cors_middleware allowed next) r
    unfolding cors_middleware
    cors_middleware-Keeps allowed next r h x i =
        map_response-Keeps (cors_headers allowed r) _
          (SiteAfter-if (r.method == "OPTIONS") _ _ (record { holds = i }) (h x i))

    pub metrics_middleware-Keeps :
        (pattern : Request → String) (next : SiteHandler Store) (r : Request)
        → KeepsAt next r
        → KeepsAt (metrics_middleware pattern next) r
    unfolding metrics_middleware
    metrics_middleware-Keeps pattern next r h x i = record { holds = (h x i).holds }

    module _ (server : RouterConfig Store) where
      admit-Keeps :
          (next : SiteHandler Store) (r : Request) (s : Store) (claims : Result Claims × World)
          → Keeps next
          → I claims.1.db
          → SiteAfter I (admit server next r s claims)
      admit-Keeps next r s (ok c, w) h i = h _ _ i
      admit-Keeps next r s (err e, w) h i = record { holds = i }

      admit_token-Keeps :
          (next : SiteHandler Store) (r : Request) (token : Option String) (x : Site Store)
          → Keeps next
          → I x.world.db
          → SiteAfter I (admit_token server next r token x)
      unfolding parse_access_token
      admit_token-Keeps next r none x h i = record { holds = i }
      admit_token-Keeps next r (some token) x h i = admit-Keeps next r x.store _ h i

      pub require_auth-Keeps :
          (next : SiteHandler Store) → Keeps next → Keeps (require_auth server next)
      unfolding require_auth
      require_auth-Keeps next h r x i =
          SiteAfter-if (get_header "Authorization" r.headers == "") _ _ (record { holds = i })
            (admit_token-Keeps next r _ x h i)

      limited-Keeps :
          (scope : String) (next : SiteHandler Store) (r : Request) (l : Option LimitResult)
          (x : Site Store)
          → Keeps next
          → I x.world.db
          → SiteAfter I (limited server scope next r l x)
      limited-Keeps scope next r none x h i = record { holds = i }
      limited-Keeps scope next r (some l) x h i =
          map_response-Keeps (limit_headers l) _
            (SiteAfter-if l.allowed _ _ (h r _ i) (record { holds = i }))

      pub rate_limit_middleware-Keeps :
          (limiter : Bool) (scope : String) (limit : ℕ) (next : SiteHandler Store)
          → Keeps next
          → Keeps (rate_limit_middleware server limiter scope limit next)
      unfolding rate_limit_middleware
      rate_limit_middleware-Keeps limiter scope limit next h r x i =
          SiteAfter-if (not limiter || limit == 0) _ _ (h r x i)
            (limited-Keeps scope next r _ _ h i)

      app-Keeps_if :
          (b : Bool) (m next : SiteHandler Store)
          → Keeps m
          → Keeps next
          → Keeps (if b then m else next)
      app-Keeps_if true m next h k = h
      app-Keeps_if false m next h k = k

      pub app-Keeps : (next : SiteHandler Store) → Keeps next → Keeps (app server next)
      app-Keeps next h =
          app-Keeps_if (has_limiter server) _ _ (rate_limit_middleware-Keeps _ _ _ next h) h

      release_order_lock-Keeps :
          (ttl : Option ℕ) (l : Option Lock) (x : Site Store)
          → (release_order_lock server ttl l x).world.db ≡ x.world.db
      unfolding release_lock
      release_order_lock-Keeps (some ttl) (some l) x = refl
      release_order_lock-Keeps (some ttl) none x = refl
      release_order_lock-Keeps none none x = refl
      release_order_lock-Keeps none (some l) x = refl

      acquire_order_lock-Keeps :
          (ttl : Option ℕ) (id : String) (x : Site Store)
          → (acquire_order_lock server ttl id x).1.world.db ≡ x.world.db
      unfolding acquire_lock
      acquire_order_lock-Keeps none id x = refl
      acquire_order_lock-Keeps (some ttl) id x = refl

      go_on-Keeps :
          (work : World → Response × World) (a : LockAnswer) (x : Site Store)
          → WorkKeeps work
          → I x.world.db
          → SiteAfter I (go_on server work (a, x))
      go_on-Keeps work (refused response) x h i = record { holds = i }
      go_on-Keeps work (proceed l) x h i = record {
        holds = rw (release_order_lock-Keeps server.lock_ttl l _) (h x.world i).holds;
      }

      pub under_lock-Keeps :
          (id : String) (work : World → Response × World) (x : Site Store)
          → WorkKeeps work
          → I x.world.db
          → SiteAfter I (under_lock server id work x)
      unfolding under_lock
      under_lock-Keeps id work x h i =
          let (answer, y) = acquire_order_lock server server.lock_ttl id x in
          go_on-Keeps work answer y h (rw (acquire_order_lock-Keeps server.lock_ttl id x) i)

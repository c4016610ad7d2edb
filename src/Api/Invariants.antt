-- ===== src/Api/Invariants.antt =====
-- Invariants of the database over any requests that the server gets.
use go_order_service.Prelude.{
  ℕ, String, refl, Bool, Option, none, some, List, [], ◌∷◌, ◌==◌, string_eq,
}
use go_order_service.Schema.{Db}
use go_order_service.Runtime.{Env, World, Result, ok, err}
use go_order_service.RedisClient.{Site}
use go_order_service.Auth.{Crypto, Config, LoginResult, Claims}
use go_order_service.Auth.Accounts.{
  Accounts, register_user-Accounts, login-Accounts, logout-Accounts,
}
use go_order_service.Orders.History.{Holds, create, pay, cancel, call, call-keeps}
use go_order_service.Orders.Ledger.{IsLedger}
use go_order_service.Orders.Ledger.Writes.{Created-IsLedger, Charged-IsLedger, Withdrawn-IsLedger}
use go_order_service.Api.{Request}
use go_order_service.Api.Server.{
  Endpoint, healthz, readyz, metrics_page, register, login, refresh, logout, me, create_order,
  list_orders, get_order, pay_order, cancel_order, RouterConfig, SiteHandler,
}
use go_order_service.Api.Auth.{
  handle_register, handle_login, answer_login, handle_logout, logout_with,
}
use go_order_service.Api.Orders.{
  create_params, pay_params, cancel_params, handle_create_order, pay_locked, cancel_locked,
}
use go_order_service.Api.Locks.{handle_pay_order, handle_cancel_order}
use go_order_service.Api.Router.{endpoint, serve, has_limiter, limited_app}
use go_order_service.Api.Frames.{
  After, WorkKeeps, Keeps, respond-Keeps, with_claims-Keeps, with_body-Keeps, SiteAfter-if,
  on_world-Keeps, require_auth-Keeps, rate_limit_middleware-Keeps, app-Keeps, under_lock-Keeps,
  site_claims-Keeps,
}
use go_order_service.Api.ReadOnly.{endpoint-Keeps_reading, serve-Keeps}

-- Requests one after another.
unfoldable pub serve_all :
    {Store : Type 0} → RouterConfig Store → List Request → Site Store → Site Store
serve_all server [] x = x
serve_all server (r ∷ rs) x = serve_all server rs (serve server r x).1

-- A property that the writes of the orders keep, and that does not depend on the accounts.
pub record Invariant (env : Env) (I : Db → Type 0) : Type 0 where
  pub writes : Holds env I
  pub accounts : (before after : Db) → Accounts before after → I before → I after

module _ {I : Db → Type 0} where
  module _ (env : Env) (inv : Invariant env I) where
    handle_create_order-Keeps : (r : Request) → WorkKeeps I (handle_create_order env r)
    unfolding handle_create_order call
    handle_create_order-Keeps r = with_claims-Keeps I r.claims _ λ c.
        with_body-Keeps I _ _ λ body w i.
          respond-Keeps I _ _ _ (call-keeps env inv.writes (create (create_params r c body)) w i)

    pay_locked-Keeps : (r : Request) (c : Claims) → WorkKeeps I (pay_locked env r c)
    unfolding pay_locked call
    pay_locked-Keeps r c w i =
        respond-Keeps I _ _ _ (call-keeps env inv.writes (pay (pay_params r c)) w i)

    cancel_locked-Keeps : (r : Request) (c : Claims) → WorkKeeps I (cancel_locked env r c)
    unfolding cancel_locked call
    cancel_locked-Keeps r c w i =
        respond-Keeps I _ _ _ (call-keeps env inv.writes (cancel (cancel_params r c)) w i)

    module _ (crypto : Crypto) (config : Config) (secure : Bool) where
      handle_register-Keeps :
          (r : Request) → WorkKeeps I (handle_register env crypto config secure r)
      unfolding handle_register
      handle_register-Keeps r = with_body-Keeps I _ _ λ body w i.
          respond-Keeps I _ _ _
            (inv.accounts w.db _ (register_user-Accounts env crypto config w _) i)

      answer_login-Keeps :
          (l : Result LoginResult × World)
          → I l.1.db
          → After I (answer_login env crypto config secure l)
      answer_login-Keeps (ok l, w) i = record { holds = i }
      answer_login-Keeps (err e, w) i = record { holds = i }

      handle_login-Keeps : (r : Request) → WorkKeeps I (handle_login env crypto config secure r)
      unfolding handle_login
      handle_login-Keeps r = with_body-Keeps I _ _ λ body w i.
          answer_login-Keeps _ (inv.accounts w.db _ (login-Accounts env crypto config w _) i)

      logout_with-Keeps :
          (token : Option String) → WorkKeeps I (logout_with env crypto config secure token)
      logout_with-Keeps none w i = record { holds = i }
      logout_with-Keeps (some token) w i = record {
        holds = inv.accounts w.db _ (logout-Accounts env crypto config w token) i;
      }

      handle_logout-Keeps : (r : Request) → WorkKeeps I (handle_logout env crypto config secure r)
      unfolding handle_logout
      handle_logout-Keeps r = logout_with-Keeps _

  module _ {Store : Type 0} (server : RouterConfig Store) (inv : Invariant server.env I) where
    handle_pay_order-Keeps : Keeps I (handle_pay_order server)
    unfolding handle_pay_order
    handle_pay_order-Keeps r x i =
        site_claims-Keeps I r.claims _
          (λ c y j.
            SiteAfter-if I (r.id == "") _ _ (record { holds = j })
              (under_lock-Keeps I server r.id _ y (pay_locked-Keeps server.env inv r c) j))
          x i

    handle_cancel_order-Keeps : Keeps I (handle_cancel_order server)
    unfolding handle_cancel_order
    handle_cancel_order-Keeps r x i =
        site_claims-Keeps I r.claims _
          (λ c y j.
            SiteAfter-if I (r.id == "") _ _ (record { holds = j })
              (under_lock-Keeps I server r.id _ y (cancel_locked-Keeps server.env inv r c) j))
          x i

    limited_app-Keeps :
        (scope : String) (limit : ℕ) (next : SiteHandler Store)
        → Keeps I next
        → Keeps I (limited_app server scope limit next)
    limited_app-Keeps scope limit next h =
        app-Keeps I server _
          (rate_limit_middleware-Keeps I server (has_limiter server) scope limit next h)

    endpoint-Keeps : (e : Endpoint) → Keeps I (endpoint server e)
    unfolding endpoint
    endpoint-Keeps register r x i =
        limited_app-Keeps "auth_register" server.auth_rate_limit_requests_per_minute _
          (on_world-Keeps I _ (handle_register-Keeps _ inv _ _ _)) r x i
    endpoint-Keeps login r x i =
        limited_app-Keeps "auth_login" server.login_rate_limit_requests_per_minute _
          (on_world-Keeps I _ (handle_login-Keeps _ inv _ _ _)) r x i
    endpoint-Keeps logout r x i =
        app-Keeps I server _ (on_world-Keeps I _ (handle_logout-Keeps _ inv _ _ _)) r x i
    endpoint-Keeps create_order r x i =
        app-Keeps I server _
          (require_auth-Keeps I server _ (on_world-Keeps I _ (handle_create_order-Keeps _ inv))) r x
          i
    endpoint-Keeps (pay_order id) r x i =
        app-Keeps I server _ (require_auth-Keeps I server _ handle_pay_order-Keeps) _ x i
    endpoint-Keeps (cancel_order id) r x i =
        app-Keeps I server _ (require_auth-Keeps I server _ handle_cancel_order-Keeps) _ x i
    endpoint-Keeps healthz r x i = endpoint-Keeps_reading I server healthz refl r x i
    endpoint-Keeps readyz r x i = endpoint-Keeps_reading I server readyz refl r x i
    endpoint-Keeps metrics_page r x i = endpoint-Keeps_reading I server metrics_page refl r x i
    endpoint-Keeps refresh r x i = endpoint-Keeps_reading I server refresh refl r x i
    endpoint-Keeps me r x i = endpoint-Keeps_reading I server me refl r x i
    endpoint-Keeps list_orders r x i = endpoint-Keeps_reading I server list_orders refl r x i
    endpoint-Keeps (get_order id) r x i = endpoint-Keeps_reading I server (get_order id) refl r x i

    pub serve_all-Keeps :
        (rs : List Request) (x : Site Store) → I x.world.db → I (serve_all server rs x).world.db
    unfolding serve_all
    serve_all-Keeps [] x i = i
    serve_all-Keeps (r ∷ rs) x i =
        serve_all-Keeps rs _ (serve-Keeps I server r (λ e _. endpoint-Keeps e r) x i).holds

IsLedger-accounts : (before after : Db) → Accounts before after → IsLedger before → IsLedger after
IsLedger-accounts before after same h = record {
  charged = λ id. rw same (h.charged id);
  created_events = λ id. rw same (h.created_events id);
  success_events = λ id. rw same (h.success_events id);
  failure_events = λ id. rw same (h.failure_events id);
  cancel_events = λ id. rw same (h.cancel_events id);
  positive = λ id. rw same (h.positive id);
}

-- Whatever requests the server gets, authenticated or not, well-formed or not, and whatever fails,
-- the orders, their payments and the events of the outbox keep agreeing as `IsLedger` says.
pub serve_all-IsLedger :
    {Store : Type 0} (server : RouterConfig Store) (rs : List Request) (x : Site Store)
    → IsLedger x.world.db
    → IsLedger (serve_all server rs x).world.db
serve_all-IsLedger server = serve_all-Keeps server (record {
  writes = record {
    created = Created-IsLedger server.env;
    charged = Charged-IsLedger server.env;
    withdrawn = Withdrawn-IsLedger server.env;
  };
  accounts = IsLedger-accounts;
})

-- ===== src/Api/ReadOnly.antt =====
-- The requests that change nothing in the database.
use mathlib.Core.Path.{subst}
use go_order_service.Prelude.{
  String, ◌≡◌, refl, sym, Bool, true, false, Option, none, some, not, if◌then◌else◌, ◌==◌,
  string_eq, arith, eq_iff, ◌∙◌,
}
use go_order_service.Schema.{Db}
use go_order_service.Runtime.{Env}
use go_order_service.Runtime.Ends.{Ends-always}
use go_order_service.RedisClient.{Site}
use go_order_service.Auth.{Crypto, Config}
use go_order_service.Auth.Accounts.{refresh_access_token-same, get_user-same}
use go_order_service.Orders.Read.Views.{get_order-Shown, list_orders-Listed}
use go_order_service.Api.{Request}
use go_order_service.Api.Server.{
  Endpoint, healthz, readyz, metrics_page, register, login, refresh, logout, me, create_order,
  list_orders, get_order, pay_order, cancel_order, route_method, Routing, matched,
  method_not_allowed, not_found, RouterConfig, SiteHandler,
}
use go_order_service.Api.Auth.{handle_me, handle_refresh, refresh_with}
use go_order_service.Api.Orders.{handle_list_orders, handle_get_order}
use go_order_service.Api.Router.{
  handle_readyz, endpoint, dispatch, find_route, pattern_for, routed, serve,
}
use go_order_service.Api.Frames.{
  WorkKeeps, KeepsAt, Keeps, respond-Keeps, with_claims-Keeps, After-if, on_world-Keeps,
  require_auth-Keeps, app-Keeps, cors_middleware-Keeps, metrics_middleware-Keeps,
}

-- The routes that may write to the database.
abbrev pub is_post : Endpoint → Bool
is_post register = true
is_post login = true
is_post logout = true
is_post create_order = true
is_post (pay_order id) = true
is_post (cancel_order id) = true
is_post _ = false

module _ (I : Db → Type 0) where
  module _ (env : Env) where
    handle_list_orders-Keeps : (r : Request) → WorkKeeps I (handle_list_orders env r)
    unfolding handle_list_orders
    handle_list_orders-Keeps r = with_claims-Keeps I r.claims _ λ c w i. respond-Keeps I _ _ _ (
        Ends-always I _ (list_orders-Listed env _ w) (λ os db h. subst I (sym h.unchanged) i)
          (λ e db same. subst I (sym same) i))

    handle_get_order-Keeps : (r : Request) → WorkKeeps I (handle_get_order env r)
    unfolding handle_get_order
    handle_get_order-Keeps r = with_claims-Keeps I r.claims _ λ c w i.
        After-if I (r.id == "") _ _ (record { holds = i })
          (respond-Keeps I _ _ _ (
            Ends-always I _ (get_order-Shown env _ w) (λ o db h. subst I (sym h.unchanged) i)
              (λ e db h. subst I (sym h.0) i)))

  module _ (env : Env) (crypto : Crypto) (config : Config) (secure : Bool) where
    handle_me-Keeps : (r : Request) → WorkKeeps I (handle_me env crypto config secure r)
    unfolding handle_me
    handle_me-Keeps r = with_claims-Keeps I r.claims _ λ c w i.
        respond-Keeps I _ _ _ (subst I (sym (get_user-same env crypto config w c.user_id)) i)

    refresh_with-Keeps :
        (token : Option String) → WorkKeeps I (refresh_with env crypto config secure token)
    refresh_with-Keeps none w i = record { holds = i }
    refresh_with-Keeps (some token) w i =
        respond-Keeps I _ _ _
          (subst I (sym (refresh_access_token-same env crypto config w token)) i)

    pub handle_refresh-Keeps :
        (r : Request) → WorkKeeps I (handle_refresh env crypto config secure r)
    unfolding handle_refresh
    handle_refresh-Keeps r = refresh_with-Keeps _

  module _ {Store : Type 0} (server : RouterConfig Store) where
    handle_readyz-Keeps : Keeps I (handle_readyz server)
    unfolding handle_readyz
    handle_readyz-Keeps r x i = ground arith

    -- They aside, a route keeps any property.
    pub endpoint-Keeps_reading : (e : Endpoint) → is_post e ≡ false → Keeps I (endpoint server e)
    unfolding endpoint
    endpoint-Keeps_reading healthz h r x i = record { holds = i }
    endpoint-Keeps_reading readyz h r x i = handle_readyz-Keeps r x i
    endpoint-Keeps_reading metrics_page h r x i = record { holds = i }
    endpoint-Keeps_reading register h r x i = cc
    endpoint-Keeps_reading login h r x i = cc
    endpoint-Keeps_reading refresh h r x i =
        app-Keeps I server _ (on_world-Keeps I _ (handle_refresh-Keeps _ _ _ _)) r x i
    endpoint-Keeps_reading logout h r x i = cc
    endpoint-Keeps_reading me h r x i =
        app-Keeps I server _
          (require_auth-Keeps I server _ (on_world-Keeps I _ (handle_me-Keeps _ _ _ _))) r x i
    endpoint-Keeps_reading create_order h r x i = cc
    endpoint-Keeps_reading list_orders h r x i =
        app-Keeps I server _
          (require_auth-Keeps I server _ (on_world-Keeps I _ (handle_list_orders-Keeps _))) r x i
    endpoint-Keeps_reading (get_order id) h r x i =
        app-Keeps I server _
          (require_auth-Keeps I server _ (on_world-Keeps I _ (handle_get_order-Keeps _))) _ x i
    endpoint-Keeps_reading (pay_order id) h r x i = cc
    endpoint-Keeps_reading (cancel_order id) h r x i = cc

    module _ (r : Request) where
      dispatch-Keeps :
          (route : Routing)
          → ((e : Endpoint) → route ≡ matched e → KeepsAt I (endpoint server e) r)
          → KeepsAt I (dispatch server route) r
      unfolding dispatch
      dispatch-Keeps (matched e) h x i = h e refl x i
      dispatch-Keeps method_not_allowed h x i = record { holds = i }
      dispatch-Keeps not_found h x i = record { holds = i }

      KeepsAt-if :
          (b : Bool) (f g : SiteHandler Store)
          → KeepsAt I f r
          → KeepsAt I g r
          → KeepsAt I (if b then f else g) r
      KeepsAt-if true f g h k = h
      KeepsAt-if false f g h k = k

      -- A request keeps what its route keeps.
      pub serve-Keeps :
          ((e : Endpoint) → find_route server r ≡ matched e → KeepsAt I (endpoint server e) r)
          → KeepsAt I (serve server) r
      unfolding serve
      serve-Keeps h =
          let routes = dispatch-Keeps (find_route server r) h in
          metrics_middleware-Keeps I (pattern_for server) _ r (
            KeepsAt-if (not (server.cors_allowed_origin == "")) _ _
              (cors_middleware-Keeps I server.cors_allowed_origin (routed server) r routes) routes)

reading_of_get :
    (e : Endpoint) → ((m : String) → route_method e ≡ some m → "GET" ≡ m) → is_post e ≡ false
reading_of_get healthz h = refl
reading_of_get readyz h = refl
reading_of_get metrics_page h = refl
reading_of_get register h = absurd (ground (arith, h "POST" refl, eq_iff "GET" "POST"))
reading_of_get login h = absurd (ground (arith, h "POST" refl, eq_iff "GET" "POST"))
reading_of_get refresh h = refl
reading_of_get logout h = absurd (ground (arith, h "POST" refl, eq_iff "GET" "POST"))
reading_of_get me h = refl
reading_of_get create_order h = absurd (ground (arith, h "POST" refl, eq_iff "GET" "POST"))
reading_of_get list_orders h = refl
reading_of_get (get_order id) h = refl
reading_of_get (pay_order id) h = absurd (ground (arith, h "POST" refl, eq_iff "GET" "POST"))
reading_of_get (cancel_order id) h = absurd (ground (arith, h "POST" refl, eq_iff "GET" "POST"))

-- A GET request changes nothing in the database, whoever sends it, whatever its path, its headers and
-- its body are, and whatever fails.
pub serve_get-same :
    {Store : Type 0} (server : RouterConfig Store) (r : Request) (x : Site Store)
    → r.method ≡ "GET"
    → (serve server r x).1.world.db ≡ x.world.db
serve_get-same server r x get =
    (serve-Keeps (λ db. db ≡ x.world.db) server r
      (λ e found.
        endpoint-Keeps_reading (λ db. db ≡ x.world.db) server e
          (reading_of_get e
            λ m registered. sym get ∙ server.chi.find-method r.method r.path m e found registered)
          r)
      x refl).holds

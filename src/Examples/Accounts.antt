-- ===== src/Examples/Accounts.antt =====
-- The properties of the sessions of the HTTP API at concrete requests.
use go_order_service.Prelude.{◌≡◌, refl, true, some, [], ◌∷◌}
use go_order_service.Prelude.Strings.{fields, split_fields, trim_space, map_chars}
use go_order_service.Runtime.{ok, World, tick, ◌>>=◌, or_raise, query, execute, scan_uuid, new_uuid}
use go_order_service.Sqlc.Users as UserQueries
use go_order_service.Sqlc.RefreshTokens as TokenQueries
use go_order_service.Store.Users as UserStore
use go_order_service.Auth.{
  LoginResult, login, open_session, generate_access_token, generate_refresh_token, read_clock,
}
use go_order_service.Api.{Request}
use go_order_service.Api.Server.{SiteHandler, on_world}
use go_order_service.Api.Auth.{handle_logout, handle_refresh}
use go_order_service.Api.Auth.Sessions.{Cleared, Ended, handle_logout-Cleared}
use go_order_service.Api.Auth.Login.{issued, login-admits}
use go_order_service.Api.Orders.{handle_list_orders}
use go_order_service.Api.Middleware.{require_auth}
use go_order_service.Examples.{render, scan, env, ada, start}
use go_order_service.Examples.Auth.{crypto, config, credentials, logged_in, sign}
use go_order_service.Examples.Server.{Store, server, site, get_orders}

abbrev with_cookie : Request
with_cookie = record get_orders { method = "POST"; cookies = ("refresh_token", "random") ∷ [] }

handle_logout-Cleared_example :
    Cleared env crypto config true (handle_logout env crypto config true with_cookie logged_in).0
    × Ended env crypto config true
        (some "random")
        logged_in
        (handle_refresh env crypto config true with_cookie
          (handle_logout env crypto config true with_cookie logged_in).1).0
handle_logout-Cleared_example =
    handle_logout-Cleared env crypto config true with_cookie with_cookie logged_in
      (handle_logout env crypto config true with_cookie logged_in).1 refl refl

abbrev lists : SiteHandler Store
lists = on_world (handle_list_orders env)

abbrev as_ada : Request
as_ada = record get_orders { headers = ("Authorization", "Bearer token") ∷ [] }

abbrev session : LoginResult
session = record {
  user = ada;
  access_token = "token";
  refresh_token = "random";
  refresh_token_expires_at = 9000003;
}

abbrev after_login : World
after_login = (login env crypto config credentials start).1

login_lem : login env crypto config credentials start ≡ (ok session, after_login)
unfolding login open_session generate_access_token generate_refresh_token read_clock ◌>>=◌ or_raise
    query scan_uuid new_uuid render scan trim_space map_chars sign UserStore.get_user_by_email
    UserQueries.get_user_by_email UserStore.create_refresh_token execute
    TokenQueries.create_refresh_token
login_lem = refl

login-admits_example :
    require_auth server lists as_ada (site start)
    ≡ lists
        (record as_ada { claims = some (issued server ada (env.now 1)) })
        (record (site start) { world = tick start })
unfolding fields split_fields
login-admits_example =
    login-admits server credentials session start after_login lists as_ada (site start) login_lem
      refl refl refl refl

-- ===== src/Api/Auth.antt =====
-- internal/api/auth_handler.go: the handlers of the accounts and their sessions.
pub mod Sessions
pub mod Login
use go_order_service.Prelude.{ℕ, String, Bool, true, Option, none, some, [], ◌∷◌, ◌-◌, ◌/◌, ◌==◌}
use go_order_service.Prelude.Int.{ℤ, pos, negsuc}
use go_order_service.Runtime.{
  Error, invalid_input, email_already_exists, invalid_credentials, invalid_refresh_token, Result,
  ok, err, Env, World, tick,
}
use go_order_service.Auth.{
  Crypto, Config, LoginResult, register_user, login, refresh_access_token, logout, get_user,
}
use go_order_service.Api.{
  Request, Cookie, Response, Handler, get_cookie, write_json, write_json_error, write_header,
  respond, unauthorized, with_claims, with_body,
}
use go_order_service.Api.Requests.{decode_register, decode_login}
use go_order_service.Api.Responses.{new_user_response, login_response}

-- The error branches of the handlers.
abbrev pub register_refusal : Error → Response
register_refusal invalid_input = write_json_error 400 "invalid register input"
register_refusal email_already_exists = write_json_error 409 "email already exists"
register_refusal _ = write_json_error 500 "failed to register user"

abbrev pub login_refusal : Error → Response
login_refusal invalid_input = write_json_error 400 "invalid login input"
login_refusal invalid_credentials = write_json_error 401 "invalid email or password"
login_refusal _ = write_json_error 500 "failed to login user"

abbrev pub refresh_refusal : Error → Response
refresh_refusal invalid_refresh_token = write_json_error 401 "invalid refresh token"
refresh_refusal _ = write_json_error 500 "failed to refresh access token"

abbrev pub refresh_token_cookie_name : String
refresh_token_cookie_name = "refresh_token"

-- `setRefreshTokenCookie` at a time, and `clearRefreshTokenCookie`, for `cookieSecure`. The age is in
-- whole seconds, and zero for a time that is over.
abbrev pub refresh_token_cookie : Bool → String → ℕ → ℕ → Cookie
refresh_token_cookie secure token expires_at now = record {
  name = refresh_token_cookie_name;
  value = token;
  path = "/auth";
  expires = expires_at;
  max_age = pos ((expires_at - now) / 1000000);
  http_only = true;
  secure = secure;
  same_site_lax = true;
}

abbrev pub cleared_cookie : Bool → ℕ → Cookie
cleared_cookie secure now = record {
  name = refresh_token_cookie_name;
  value = "";
  path = "/auth";
  expires = now - 3600000000;
  max_age = negsuc 0;
  http_only = true;
  secure = secure;
  same_site_lax = true;
}

abbrev pub set_cookie : Cookie → Response → Response
set_cookie c r = record r { cookies = c ∷ r.cookies }

-- After the logout, if one was made: the cookie is cleared.
abbrev pub clear_cookie : Env → Bool → World → Response × World
clear_cookie env secure w =
    (set_cookie (cleared_cookie secure (env.now w.ticks)) (write_header 204), tick w)

module _ (env : Env) (crypto : Crypto) (config : Config) (cookie_secure : Bool) where
  unfoldable pub handle_register : Handler
  handle_register r = with_body (decode_register r.body) λ body w.
      respond (λ u. write_json 201 (new_user_response env u)) register_refusal
        (register_user env crypto config
          (record { email = body.email; password = body.password; role = body.role }) w)

  -- After `Login`: the cookie is set by the clock, then the response.
  abbrev pub answer_login : Result LoginResult × World → Response × World
  answer_login (ok l, w) = (
    set_cookie
        (refresh_token_cookie cookie_secure l.refresh_token l.refresh_token_expires_at
          (env.now w.ticks))
        (write_json 200 (login_response env l.access_token l.user)),
    tick w,
  )
  answer_login (err e, w) = (login_refusal e, w)

  unfoldable pub handle_login : Handler
  handle_login r = with_body (decode_login r.body) λ body w.
      answer_login
        (login env crypto config (record { email = body.email; password = body.password }) w)

  abbrev pub refresh_with : Option String → World → Response × World
  refresh_with none w = (write_json_error 401 "missing refresh token", w)
  refresh_with (some token) w =
      respond (λ l. write_json 200 (login_response env l.access_token l.user)) refresh_refusal
        (refresh_access_token env crypto config token w)

  unfoldable pub handle_refresh : Handler
  handle_refresh r = refresh_with (get_cookie refresh_token_cookie_name r.cookies)

  -- Errors of `Logout` are at most logged.
  abbrev pub logout_with : Option String → World → Response × World
  logout_with none w = clear_cookie env cookie_secure w
  logout_with (some token) w = clear_cookie env cookie_secure (logout env crypto config token w).1

  unfoldable pub handle_logout : Handler
  handle_logout r = logout_with (get_cookie refresh_token_cookie_name r.cookies)

  unfoldable pub handle_me : Handler
  handle_me r = with_claims r.claims λ c w.
      respond (λ u. write_json 200 (new_user_response env u)) (λ _. unauthorized)
        (get_user env crypto config c.user_id w)

-- ===== src/Api/Auth/Sessions.antt =====
-- What the handlers of the sessions answer.
use go_order_service.Prelude.{
  ℕ, ap, inl, inr, ◌⊎◌, ◌∙◌, String, ◌≡◌, refl, Bool, Option, none, some, [], ◌∷◌, arith, string_eq,
}
use go_order_service.Runtime.{Error, Result, err, invalid_refresh_token, ok, Env, World}
use go_order_service.Auth.{Crypto, Config, RefreshAccessTokenResult, refresh_access_token, logout}
use go_order_service.Auth.Tokens.{logout_ends}
use go_order_service.Api.Responses.{login_response}
use go_order_service.Api.{
  Request, Response, get_cookie, write_json, write_json_error, respond, no_content,
}
use go_order_service.Api.Auth.{
  refresh_token_cookie_name, cleared_cookie, handle_logout, handle_refresh, logout_with,
  refresh_with, refresh_refusal,
}

module _ (env : Env) (crypto : Crypto) (config : Config) (secure : Bool) where
  -- The browser is told to drop the cookie, with nothing else in the response.
  pub record Cleared (response : Response) : Type 0 where
    pub status : response.status ≡ 204
    pub content : response.content ≡ no_content
    pub now : ℕ
    pub cookies : response.cookies ≡ cleared_cookie secure now ∷ []

  -- The answer to a renewal that is refused.
  respond_refused :
      (p : Result RefreshAccessTokenResult × World)
      → p.0 ≡ err invalid_refresh_token
      → (respond
          (λ l. write_json 200 (login_response env l.access_token l.user))
          refresh_refusal
          p).0
        ≡ write_json_error 401 "invalid refresh token"
  unfolding respond
  respond_refused (ok l, w) h = cc
  respond_refused (err e, w) h = ground arith

  logout_with-Cleared :
      (token : Option String) (w : World) → Cleared (logout_with env crypto config secure token w).0
  logout_with-Cleared none w = record {
    status = refl;
    content = refl;
    now = env.now w.ticks;
    cookies = refl;
  }
  logout_with-Cleared (some token) w = record {
    status = refl;
    content = refl;
    now = env.now (logout env crypto config token w).1.ticks;
    cookies = refl;
  }

  -- What becomes of a refresh token that a logout ends, or does not.
  abbrev pub Ended : Option String → World → Response → Type 0
  Ended token w later =
      ((e : Error) × (t : String) × (token ≡ some t) × ((logout env crypto config t w).0 ≡ err e))
      ⊎ ((token ≡ none) × (later ≡ write_json_error 401 "missing refresh token"))
      ⊎ (later ≡ write_json_error 401 "invalid refresh token")

  refused :
      (token : Option String) (w v : World)
      → v.db.refresh_tokens ≡ (logout_with env crypto config secure token w).1.db.refresh_tokens
      → Ended token w (refresh_with env crypto config secure token v).0
  refused none w v same = inr (inl (refl, refl))
  refused (some t) w v same = by_result (logout env crypto config t w) refl
    where
      by_result :
          (r : Result Unit × World)
          → logout env crypto config t w ≡ r
          → Ended (some t) w (refresh_with env crypto config secure (some t) v).0
      by_result (err e, x) done = inl (e, t, refl, ap (λ (p : Result Unit × World). p.0) done)
      by_result (ok u, x) done = inr (
          inr (
            respond_refused (refresh_access_token env crypto config t v) (
              logout_ends env crypto config t w x v done
                (same ∙ ap (λ (p : Result Unit × World). p.1.db.refresh_tokens) done))))

  -- A logout answers 204 and clears the cookie, whatever cookie the request has or whether it has one,
  -- and whatever fails. A request for a new access token with the same cookie is answered 401 as long
  -- as the table of tokens stays as the logout left it, unless the logout of its token has failed.
  pub handle_logout-Cleared :
      (r q : Request) (w v : World)
      → get_cookie refresh_token_cookie_name q.cookies
        ≡ get_cookie refresh_token_cookie_name r.cookies
      → v.db.refresh_tokens ≡ (handle_logout env crypto config secure r w).1.db.refresh_tokens
      → Cleared (handle_logout env crypto config secure r w).0
        × Ended
            (get_cookie refresh_token_cookie_name r.cookies)
            w
            (handle_refresh env crypto config secure q v).0
  unfolding handle_logout handle_refresh
  handle_logout-Cleared r q w v again same =
      (logout_with-Cleared _ w, rw again (refused _ w v same))

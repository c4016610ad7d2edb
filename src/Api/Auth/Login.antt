-- ===== src/Api/Auth/Login.antt =====
-- That a login lets its user in.
use mathlib.Core.Path.{subst}
use go_order_service.Prelude.{
  ℕ, suc, String, ◌≡◌, refl, Bool, true, false, ◌||◌, some, [], ◌∷◌, ◌+◌, ◌*◌, ◌/◌, ltb, arith,
  ◌==◌, string_eq, eq_iff, ap, inl, inr, Bool-cases,
}
use go_order_service.Prelude.Strings.{fields, split_fields}
use go_order_service.Messages.{same_name}
use go_order_service.Runtime.{ok, World, tick}
use go_order_service.Runtime.Ends.{Ends, Atomic}
use go_order_service.Runtime.Uuids.{render-ne-nil}
use go_order_service.RedisClient.{Site}
use go_order_service.Schema.{User}
use go_order_service.Auth.{
  LoginParams, LoginResult, Claims, claims_of, login, parse_access_token, accept, accepts_method,
}
use go_order_service.Auth.Sessions.{Opened, login-Opened}
use go_order_service.Api.{Request, get_header}
use go_order_service.Api.Server.{RouterConfig, SiteHandler}
use go_order_service.Api.Middleware.{require_auth, bearer_token}

-- The header `Bearer token`.
abbrev pub bearer : String → String
bearer token = String.◌∷◌ "B" (
    String.◌∷◌ "e"
      (String.◌∷◌ "a" (String.◌∷◌ "r" (String.◌∷◌ "e" (String.◌∷◌ "r" (String.◌∷◌ " " token))))))

abbrev is_written : String → Bool
is_written String.[] = false
is_written (String.◌∷◌ c s) = true

bearer-ne-nil : (token : String) → (bearer token == "") ≡ false
bearer-ne-nil token = elim (Bool-cases (bearer token == "")) [
  | inl same ↦
      let e : true ≡ false = ap is_written ((eq_iff (bearer token) "").0 same) in absurd (cc)
  | inr other ↦ other
]

-- A token without spaces is what is read from it.
bearer_token-bearer :
    (token : String) → fields token ≡ token ∷ [] → bearer_token (fields (bearer token)) ≡ some token
unfolding fields split_fields same_name
bearer_token-bearer token h = ground (arith, h)

module _ {Store : Type 0} (server : RouterConfig Store) where
  -- The claims of a user at a time.
  abbrev pub issued : User → ℕ → Claims
  issued u now = claims_of server.env server.crypto server.auth u now

  require_auth-accepts :
      (next : SiteHandler Store) (r : Request) (x : Site Store) (token : String) (c : Claims)
      → fields token ≡ token ∷ []
      → get_header "Authorization" r.headers ≡ bearer token
      → accept (server.crypto.verify (server.env.now x.world.ticks) accepts_method token) ≡ ok c
      → require_auth server next r x
        ≡ next (record r { claims = some c }) (record x { world = tick x.world })
  unfolding require_auth parse_access_token
  require_auth-accepts next r x token c one header accepted =
      simp (header, bearer-ne-nil token, bearer_token-bearer token one, accepted) refl

  -- A request with the access token of a login is let through to its handler, with the identity, the
  -- email and the role of the user, until the token expires by the time at which the login issued it;
  -- a token has no spaces, and the user an email and a role.
  pub login-admits :
      (p : LoginParams) (l : LoginResult) (w w' : World) (next : SiteHandler Store) (r : Request)
      (x : Site Store)
      → login server.env server.crypto server.auth p w ≡ (ok l, w')
      → (l.user.email == "" || l.user.role == "") ≡ false
      → fields l.access_token ≡ l.access_token ∷ []
      → get_header "Authorization" r.headers ≡ bearer l.access_token
      → ltb
          (server.env.now x.world.ticks)
          ((server.env.now (suc w.ticks) + server.auth.access_ttl) / 1000000 * 1000000)
        ≡ true
      → require_auth server next r x
        ≡ next
            (record r { claims = some (issued l.user (server.env.now (suc w.ticks))) })
            (record x { world = tick x.world })
  login-admits p l w w' next r x done named one header early =
      let at_login = server.env.now (suc w.ticks) in
      let opened =
        (subst
          (Ends (Opened server.env server.crypto server.auth p at_login w.db)
            (Atomic w.db (Opened server.env server.crypto server.auth p at_login w.db)))
          done (login-Opened server.env server.crypto server.auth p w)).as_stated in
      require_auth-accepts next r x l.access_token _ one header (
        rw
          (server.crypto.verify-sign _ l.access_token (server.env.now x.world.ticks) accepts_method
            opened.signed refl early)
          (ground (arith, render-ne-nil server.env l.user.id)))

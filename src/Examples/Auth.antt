-- ===== src/Examples/Auth.antt =====
-- The properties of the auth service at concrete requests.
use go_order_service.Prelude.{
  ℕ, String, ◌≡◌, refl, Bool, true, ◌&&◌, Option, none, some, [], ◌∷◌, ltb, if◌then◌else◌, ◌==◌,
  nat_eq, string_eq, arith, eq_iff, ◌*◌,
}
use go_order_service.Prelude.Strings.{mentions, trim_space, map_chars}
use go_order_service.Schema.{User, RefreshToken, empty}
use go_order_service.Runtime.{
  Env, World, ok, ◌>>=◌, or_raise, attempt, new_uuid, query, execute, scan_uuid,
}
use go_order_service.Sqlc.Users as UserQueries
use go_order_service.Auth.Progress.{CanOpen, login-registered}
use go_order_service.Runtime.Ends.{Ends, Atomic}
use go_order_service.Sqlc.RefreshTokens as TokenQueries
use go_order_service.Store.Users as UserStore
use go_order_service.Auth.{
  Claims, Crypto, Config, LoginParams, LoginResult, RegisterUserParams, claims_of, hash_password,
  register_user, login, refresh_access_token, logout,
}
use go_order_service.Auth.Registration.{Registered, register_user-Registered}
use go_order_service.Auth.Sessions.{Opened, login-Opened, Renewed, refresh_access_token-Renewed}
use go_order_service.Examples.{render, scan, env, customer, start}

-- The one set of claims for which there is a token.
abbrev pub known : Claims
known = record {
  user_id = customer;
  email = "ada@example.com";
  role = "customer";
  subject = customer;
  issued_at = 0;
  expires_at = 2;
}

abbrev pub is_known : Claims → Bool
is_known c =
    c.user_id == customer
    && c.email == "ada@example.com"
    && c.role == "customer"
    && c.subject == customer
    && c.issued_at == 0
    && c.expires_at == 2

pub is_known-same : (c : Claims) → is_known c ≡ true → c ≡ known
is_known-same c h = grind (
  arith,
  eq_iff c.user_id customer,
  eq_iff c.email "ada@example.com",
  eq_iff c.role "customer",
  eq_iff c.subject customer,
)

unfoldable pub sign : Claims → Option String
sign c = if is_known c then some "token" else none

unfoldable pub verify : ℕ → (String → Bool) → String → Option Claims
verify now accepts token =
    if token == "token" && accepts "HS256" && ltb now 2000000 then some known else none

pub verify-sign :
    (c : Claims) (token : String) (now : ℕ) (accepts : String → Bool)
    → sign c ≡ some token
    → accepts "HS256" ≡ true
    → ltb now (c.expires_at * 1000000) ≡ true
    → verify now accepts token ≡ some c
unfolding sign verify
verify-sign c token now accepts signed good early =
    grind (arith, is_known-same c, eq_iff token "token")

abbrev pub plain : ℕ → String → Option String
plain n password = some password

abbrev pub same_text : String → String → Bool
same_text password hash = password == hash

pub check-plain :
    (n : ℕ) (password hash : String) → plain n password ≡ some hash → same_text password hash ≡ true
check-plain n password hash h = grind (arith, eq_iff password hash)

abbrev pub drawn : ℕ → Option String
drawn n = some "random"

abbrev pub unchanged_text : String → String
unchanged_text token = token

abbrev pub crypto : Crypto
crypto = record {
  hash_password = plain;
  check_password = same_text;
  random = drawn;
  hash_token = unchanged_text;
  sign = sign;
  verify = verify;
  check-hash = check-plain;
  verify-sign = verify-sign;
}

abbrev pub config : Config
config = record { access_ttl = 2000000; refresh_ttl = 9000000 }

abbrev pub credentials : LoginParams
credentials = record { email = " ada@example.com"; password = "hash" }

abbrev pub stored_token : RefreshToken
stored_token = record {
  id = 3;
  user_id = 7;
  token_hash = "random";
  expires_at = 9000000;
  revoked_at = none;
  created_at = 4;
}

abbrev pub logged_in : World
logged_in = record start { db = record start.db { refresh_tokens = stored_token ∷ [] } }

abbrev pub logged_out : World
logged_out = record start {
  db = record start.db { refresh_tokens = record stored_token { revoked_at = some 1 } ∷ [] };
  ticks = 2;
}

pub logged_out_lem : logout env crypto config "random" logged_in ≡ (ok tt, logged_out)
unfolding logout or_raise ◌>>=◌ UserStore.get_refresh_token_by_hash query execute
    TokenQueries.get_refresh_token_by_hash UserStore.revoke_refresh_token scan_uuid scan render
    TokenQueries.revoke_refresh_token
logged_out_lem = refl

abbrev bob : RegisterUserParams
bob = record { email = "Bob@Example.com"; password = "secret"; role = "" }

register_user-Registered_example :
    Ends
      (Registered env crypto bob start.db)
      (Atomic start.db (Registered env crypto bob start.db))
      (register_user env crypto config bob start)
register_user-Registered_example = register_user-Registered env crypto config bob start

login-Opened_example :
    Ends
      (Opened env crypto config credentials (env.now 1) start.db)
      (Atomic start.db (Opened env crypto config credentials (env.now 1) start.db))
      (login env crypto config credentials start)
login-Opened_example = login-Opened env crypto config credentials start

refresh_access_token-Renewed_example :
    Ends
      (Renewed env crypto config "random" (env.now 1) (env.now 3) logged_in.db)
      (λ _ db. db ≡ logged_in.db)
      (refresh_access_token env crypto config "random" logged_in)
refresh_access_token-Renewed_example =
    refresh_access_token-Renewed env crypto config "random" logged_in

-- The libraries when the clock stands still.
abbrev stopped : ℕ → ℕ
stopped n = 0

abbrev still : Env
still = record env { now = stopped }

abbrev nobody : World
nobody = record start { db = empty; ticks = 6 }

abbrev signed_up : User
signed_up = record {
  id = 7;
  email = "ada@example.com";
  password_hash = "hash";
  role = "customer";
  created_at = 0;
  updated_at = 0;
}

abbrev with_ada : World
with_ada = record nobody { db = record empty { users = signed_up ∷ [] }; ticks = 9 }

abbrev sign_up : RegisterUserParams
sign_up = record { email = "ada@example.com"; password = "hash"; role = "" }

sign_up_lem : register_user still crypto config sign_up nobody ≡ (ok signed_up, with_ada)
unfolding mentions register_user hash_password ◌>>=◌ new_uuid attempt query execute scan_uuid render
    scan trim_space map_chars UserStore.create_user UserQueries.create_user
sign_up_lem = refl

signs_known : (n : ℕ) → (t : String) × (sign (claims_of still crypto config signed_up 0) ≡ some t)
unfolding sign render
signs_known n = ("token", refl)

can_open : CanOpen still crypto config signed_up with_ada.db
can_open = record {
  draws = λ n. ("random", refl);
  signs = signs_known;
  new_hash = λ n t h. refl;
  new_id = λ n. refl;
}

login-registered_example :
    (l : LoginResult) × ((login still crypto config credentials with_ada).0 ≡ ok l)
    × (l.user ≡ signed_up)
unfolding trim_space map_chars
login-registered_example =
    login-registered still crypto config (record { answers = λ n. refl; commits = λ n. refl })
      sign_up credentials signed_up nobody with_ada with_ada sign_up_lem refl refl refl can_open

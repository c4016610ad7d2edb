-- ===== src/Auth.antt =====
-- internal/service/auth_service.go, with internal/auth/jwt.go, password.go and refresh_token.go.
-- `Claims` are those that the source sets and reads; the standard library's clock counts
-- microseconds here, and a token has whole seconds.
pub mod Registration
pub mod Tokens
pub mod Sessions
pub mod Accounts
pub mod Progress
use go_order_service.Prelude.{
  ℕ, String, Bool, true, false, ◌||◌, ◌&&◌, not, Option, none, some, ◌+◌, ◌/◌, ◌*◌, ◌≡◌, ltb,
  if◌then◌else◌, ◌==◌, string_eq, nat_eq,
}
use go_order_service.Prelude.Strings.{trim_space, map_chars}
use go_order_service.Schema.{User, RefreshToken}
use go_order_service.Runtime.{
  Error, pg_error, invalid_input, email_already_exists, invalid_credentials, invalid_refresh_token,
  invalid_token, password_not_hashed, no_randomness, token_not_signed, Result, ok, err, Env, World,
  tick, Action, pure, raise, ◌>>=◌, ◌>>◌, attempt, or_raise, require, new_uuid,
}
use go_order_service.Store.Users as UserStore

-- The claims of an access token.
pub record Claims : Type 0 where
  pub user_id : String
  pub email : String
  pub role : String
  pub subject : String
  pub issued_at : ℕ
  pub expires_at : ℕ

-- The libraries of internal/auth: bcrypt, which takes a salt from the call's number and refuses long
-- passwords; 32 random bytes in base64, which the system may not give; SHA-256 in hexadecimal
-- digits; and JSON Web Tokens with HMAC-SHA-256, whose name is HS256, under the configured secret.
-- `verify` is `jwt.ParseWithClaims` at a time: it asks a function of the caller's whether it accepts
-- the name of the method in the token, and returns the claims where that, the signature and the expiry
-- are right.
pub record Crypto : Type 0 where
  pub hash_password : ℕ → String → Option String
  pub check_password : String → String → Bool
  pub random : ℕ → Option String
  pub hash_token : String → String
  pub sign : Claims → Option String
  pub verify : ℕ → (String → Bool) → String → Option Claims
  pub check-hash :
      (n : ℕ) (password hash : String)
      → hash_password n password ≡ some hash
      → check_password password hash ≡ true
  pub verify-sign :
      (c : Claims) (token : String) (now : ℕ) (accepts : String → Bool)
      → sign c ≡ some token
      → accepts "HS256" ≡ true
      → ltb now (c.expires_at * 1000000) ≡ true
      → verify now accepts token ≡ some c

-- `NewTokenManager` and `NewAuthService`.
pub record Config : Type 0 where
  pub access_ttl : ℕ
  pub refresh_ttl : ℕ

pub record RegisterUserParams : Type 0 where
  pub email : String
  pub password : String
  pub role : String

pub record LoginParams : Type 0 where
  pub email : String
  pub password : String

pub record LoginResult : Type 0 where
  pub user : User
  pub access_token : String
  pub refresh_token : String
  pub refresh_token_expires_at : ℕ

pub record RefreshAccessTokenResult : Type 0 where
  pub user : User
  pub access_token : String

-- The function that `ParseAccessToken` gives to the library.
abbrev pub accepts_method : String → Bool
accepts_method alg = alg == "HS256"

abbrev pub accept : Option Claims → Result Claims
accept none = err invalid_token
accept (some c) =
    if c.user_id == "" || c.email == "" || c.role == "" then err invalid_token else ok c

abbrev pub role_of : RegisterUserParams → String
role_of p = if p.role == "" then "customer" else p.role

-- `isUniqueViolation`
abbrev pub register_error : Error → Error
register_error (pg_error code) = if code == "23505" then email_already_exists else pg_error code
register_error e = e

abbrev pub registered : Result User → Action User
registered (ok u) = pure u
registered (err e) = raise (register_error e)

abbrev pub is_revoked : RefreshToken → Bool
is_revoked t = elim t.revoked_at [ none ↦ false | some _ ↦ true ]

abbrev pub normal_email : Env → String → String
normal_email env email = trim_space (map_chars env.lower email)

module _ (env : Env) (crypto : Crypto) (config : Config) where
  -- `time.Now`.
  unfoldable pub read_clock : Action ℕ
  read_clock w = (ok (env.now w.ticks), tick w)

  -- `HashPassword`, `GenerateRefreshToken`.
  unfoldable pub hash_password : String → Action String
  hash_password password w =
      require (crypto.hash_password w.ticks password) password_not_hashed (tick w)

  unfoldable pub generate_refresh_token : Action String
  generate_refresh_token w = require (crypto.random w.ticks) no_randomness (tick w)

  -- `NewNumericDate`: whole seconds.
  abbrev pub claims_of : User → ℕ → Claims
  claims_of u now = record {
    user_id = env.render u.id;
    email = u.email;
    role = u.role;
    subject = env.render u.id;
    issued_at = now / 1000000;
    expires_at = (now + config.access_ttl) / 1000000;
  }

  -- `GenerateAccessToken`, for a user.
  unfoldable pub generate_access_token : User → Action String
  generate_access_token u = do
    now ← read_clock
    require (crypto.sign (claims_of u now)) token_not_signed

  -- `ParseAccessToken`.
  unfoldable pub parse_access_token : String → Action Claims
  parse_access_token token w =
      (accept (crypto.verify (env.now w.ticks) accepts_method token), tick w)

  unfoldable pub register_user : RegisterUserParams → Action User
  register_user p =
      if normal_email env p.email == "" || p.password == ""
      then raise invalid_input
      else if not (role_of p == "customer") && not (role_of p == "admin")
      then raise invalid_input
      else do
        password_hash ← hash_password p.password
        id ← new_uuid env
        result ← attempt (
            UserStore.create_user env (record {
              id = id;
              email = normal_email env p.email;
              password_hash = password_hash;
              role = role_of p;
            }))
        registered result

  -- `Login`, for the user with the email.
  unfoldable pub open_session : String → User → Action LoginResult
  open_session password u =
      if not (crypto.check_password password u.password_hash) then raise invalid_credentials else do
        access_token ← generate_access_token u
        refresh_token ← generate_refresh_token
        now ← read_clock
        id ← new_uuid env
        UserStore.create_refresh_token env (record {
          id = id;
          user_id = env.render u.id;
          token_hash = crypto.hash_token refresh_token;
          expires_at = now + config.refresh_ttl;
        })
        pure (record {
          user = u;
          access_token = access_token;
          refresh_token = refresh_token;
          refresh_token_expires_at = now + config.refresh_ttl;
        })

  unfoldable pub login : LoginParams → Action LoginResult
  login p = if normal_email env p.email == "" || p.password == "" then raise invalid_input else do
    u ← or_raise (UserStore.get_user_by_email env (normal_email env p.email)) invalid_credentials
    open_session p.password u

  -- `RefreshAccessToken`, for the stored token: the clock is read only if it is not revoked.
  unfoldable pub renew : RefreshToken → Action RefreshAccessTokenResult
  renew t = do
    u ← or_raise (UserStore.get_user env (env.render t.user_id)) invalid_refresh_token
    access_token ← generate_access_token u
    pure (record { user = u; access_token = access_token })

  unfoldable pub renew_unexpired : RefreshToken → Action RefreshAccessTokenResult
  renew_unexpired t = do
    now ← read_clock
    if ltb t.expires_at now then raise invalid_refresh_token else renew t

  unfoldable pub refresh_access_token : String → Action RefreshAccessTokenResult
  refresh_access_token refresh_token =
      if refresh_token == "" then raise invalid_refresh_token else do
        t ←
            or_raise (UserStore.get_refresh_token_by_hash env (crypto.hash_token refresh_token))
              invalid_refresh_token
        if is_revoked t then raise invalid_refresh_token else renew_unexpired t

  unfoldable pub logout : String → Action Unit
  logout refresh_token = if refresh_token == "" then raise invalid_refresh_token else do
    t ←
        or_raise (UserStore.get_refresh_token_by_hash env (crypto.hash_token refresh_token))
          invalid_refresh_token
    or_raise (UserStore.revoke_refresh_token env (env.render t.id)) invalid_refresh_token
    pure tt

  -- `GetUser`.
  unfoldable pub get_user : String → Action User
  get_user id = UserStore.get_user env id

-- ===== src/Config/Loading.antt =====
-- What the settings are, whatever the environment.
use go_order_service.Prelude.{
  ℕ, String, ◌≡◌, refl, ◌≤◌, ◌<◌, false, Option, none, some, arith, ◌==◌, string_eq, if◌then◌else◌,
  ltb, ◌%◌, ◌-◌,
}
use go_order_service.Prelude.Int.{ℤ, pos, negsuc, leb_ℤ}
use go_order_service.Config.{
  Environment, Settings, load, get_env, get_env_int, get_env_duration, positive_or,
}
use go_order_service.Config.Numbers.{atoi}

abbrev pub IsPositive : ℤ → Type 0
IsPositive n = leb_ℤ n (pos 0) ≡ false

pub record Sound (s : Settings) : Type 0 where
  pub access : IsPositive s.access_token_ttl
  pub refresh : IsPositive s.refresh_token_ttl
  pub poll : IsPositive s.publisher_poll_interval
  pub lock : IsPositive s.order_lock_ttl
  pub limit : IsPositive s.rate_limit_requests_per_minute
  pub auth_limit : IsPositive s.auth_rate_limit_requests_per_minute
  pub login_limit : IsPositive s.login_rate_limit_requests_per_minute
  pub named : (s.port == "") ≡ false
  pub secret : (s.jwt_secret == "") ≡ false
  pub topic : (s.kafka_topic == "") ≡ false

positive_or-IsPositive :
    (fallback : ℤ) (n : Option ℤ) → IsPositive fallback → IsPositive (positive_or fallback n)
positive_or-IsPositive fallback none h = h
positive_or-IsPositive fallback (some n) h = ground arith

module _ (e : Environment) where
  get_env_int-IsPositive :
      (key : String) (fallback : ℤ) → IsPositive fallback → IsPositive (get_env_int e key fallback)
  unfolding get_env_int
  get_env_int-IsPositive key fallback h =
      ground (arith, positive_or-IsPositive fallback (atoi (e.getenv key)) h)

  get_env_duration-IsPositive :
      (key : String) (fallback : ℤ)
      → IsPositive fallback
      → IsPositive (get_env_duration e key fallback)
  unfolding get_env_duration
  get_env_duration-IsPositive key fallback h =
      ground (arith, positive_or-IsPositive fallback (e.parse_duration (e.getenv key)) h)

  get_env-ne-nil :
      (key fallback : String) → (fallback == "") ≡ false → (get_env e key fallback == "") ≡ false
  unfolding get_env
  get_env-ne-nil key fallback h = ground arith

  -- Whatever the environment holds, malformed and negative numbers included, every duration and every
  -- limit is positive, and the port, the secret and the topic are not empty.
  pub load-Sound : Sound (load e)
  unfolding load
  load-Sound = record {
    access = get_env_duration-IsPositive "ACCESS_TOKEN_TTL" _ refl;
    refresh = get_env_duration-IsPositive "REFRESH_TOKEN_TTL" _ refl;
    poll = get_env_duration-IsPositive "PUBLISHER_POLL_INTERVAL" _ refl;
    lock = get_env_duration-IsPositive "ORDER_LOCK_TTL" _ refl;
    limit = get_env_int-IsPositive "RATE_LIMIT_REQUESTS_PER_MINUTE" _ refl;
    auth_limit = get_env_int-IsPositive "AUTH_RATE_LIMIT_REQUESTS_PER_MINUTE" _ refl;
    login_limit = get_env_int-IsPositive "LOGIN_RATE_LIMIT_REQUESTS_PER_MINUTE" _ refl;
    named = get_env-ne-nil "PORT" "8080" refl;
    secret = get_env-ne-nil "JWT_SECRET" "dev-secret-change-me" refl;
    topic = get_env-ne-nil "KAFKA_TOPIC" "order.events.v1" refl;
  }

  -- A batch size that is a number from 2 ^ 31 to 2 ^ 32 - 1 is taken, and becomes negative; from 1 to
  -- 2 ^ 31 - 1 it stays what it is.
  pub load_batch_size :
      (n : ℕ)
      → (e.getenv "PUBLISHER_BATCH_SIZE" == "") ≡ false
      → atoi (e.getenv "PUBLISHER_BATCH_SIZE") ≡ some (pos n)
      → 1 ≤ n
      → n < 4294967296
      → (load e).publisher_batch_size
        ≡ (if ltb n 2147483648 then pos n else negsuc (4294967295 - n))
  unfolding load get_env_int
  load_batch_size n given parsed low high =
      let same : n % 4294967296 ≡ n = omega arith in ground arith

-- ===== src/RateLimit.antt =====
-- internal/ratelimit/limiter.go, over a Redis server: an interface with what the commands that the
-- code uses promise of a counter at a time. Times are in microseconds; a counter does not reach the
-- end of an `int64`.
pub mod Stays
pub mod Counting
pub mod Keys
pub mod Bounds
pub mod Service
use Prim.Native.String.{◌++◌ as append}
use go_order_service.Prelude.{
  ℕ, suc, String, ◌≡◌, ◌+◌, ◌-◌, ◌/◌, ◌%◌, Bool, true, false, Option, none, some, ltb, leb,
  if◌then◌else◌, ◌==◌, nat_eq, string_eq,
}
use go_order_service.Prelude.Strings.{decimal}
use go_order_service.RedisClient.{Reply, exchange}

-- The value of a key that counts, and the time at which it goes away, if there is one.
pub record Counter : Type 0 where
  pub value : ℕ
  pub deadline : Option ℕ

abbrev pub is_live : ℕ → Option ℕ → Bool
is_live now none = true
is_live now (some deadline) = ltb now deadline

-- What `INCR` finds, and what it leaves: a key that is not there counts from zero and stays.
abbrev pub live_value : ℕ → Option Counter → ℕ
live_value now none = 0
live_value now (some c) = if is_live now c.deadline then c.value else 0

abbrev pub bumped : ℕ → Option Counter → Counter
bumped now none = record { value = 1; deadline = none }
bumped now (some c) =
    if is_live now c.deadline
    then record c { value = suc c.value }
    else record { value = 1; deadline = none }

-- What `EXPIRE` leaves: it does nothing where there is no key.
abbrev pub renewed : ℕ → ℕ → Option Counter → Option Counter
renewed now ttl none = none
renewed now ttl (some c) =
    if is_live now c.deadline then some (record c { deadline = some (now + ttl) }) else some c

pub record Counters (Store : Type 0) : Type 0 where
  pub entry : Store → String → Option Counter
  pub incr : ℕ → String → Store → ℕ × Store
  pub expire : ℕ → String → ℕ → Store → Unit {0} × Store
  pub incr-value :
      (s : Store) (now : ℕ) (key : String) → (incr now key s).0 ≡ suc (live_value now (entry s key))
  pub incr-entry :
      (s : Store) (now : ℕ) (key : String)
      → entry (incr now key s).1 key ≡ some (bumped now (entry s key))
  pub incr-other :
      (s : Store) (now : ℕ) (key other : String)
      → (other == key) ≡ false
      → entry (incr now key s).1 other ≡ entry s other
  pub expire-entry :
      (s : Store) (now ttl : ℕ) (key : String)
      → entry (expire now key ttl s).1 key ≡ renewed now ttl (entry s key)
  pub expire-other :
      (s : Store) (now ttl : ℕ) (key other : String)
      → (other == key) ≡ false
      → entry (expire now key ttl s).1 other ≡ entry s other

-- `Result`.
pub record LimitResult : Type 0 where
  pub allowed : Bool
  pub limit : ℕ
  pub remaining : ℕ
  pub retry_after : ℕ

-- When the three calls of `Allow` are made, and what becomes of the two commands.
pub record Timing : Type 0 where
  pub now : ℕ
  pub incr_at : ℕ
  pub expire_at : ℕ
  pub incr_reply : Reply
  pub expire_reply : Reply

-- `now.Truncate(window)` rounds down since the year 1, which is so many seconds before 1970.
abbrev pub zero_time_offset : ℕ
zero_time_offset = 62135596800000000

unfoldable pub window_start : ℕ → ℕ → ℕ
window_start now window = now - (now + zero_time_offset) % window

unfoldable pub redis_key : String → String → ℕ → String
redis_key scope key start =
    append "rate_limit:"
      (append scope (append ":" (append key (append ":" (decimal (start / 1000000))))))

-- The result for a count.
abbrev pub limit_result : ℕ → ℕ → ℕ → ℕ → LimitResult
limit_result limit window now count = record {
  allowed = leb count limit;
  limit = limit;
  remaining = limit - count;
  retry_after = window_start now window + window - now;
}

module _ {Store : Type 0} (counters : Counters Store) where
  -- After `INCR`: a first request starts the life of the counter.
  abbrev pub after_incr : Timing → String → ℕ → ℕ → Option ℕ × Store → Option LimitResult × Store
  after_incr t key limit window (none, s) = (none, s)
  after_incr t key limit window (some count, s) =
      if count == 1
      then (let (renewal, s') =
            exchange t.expire_reply (counters.expire t.expire_at key (window + 1000000)) s in
          (
            elim renewal [ none ↦ none | some _ ↦ some (limit_result limit window t.now count) ],
            s',
          ))
      else (some (limit_result limit window t.now count), s)

  -- `Allow`; `none` is an error. A limit and a window are positive numbers.
  unfoldable pub allow : Timing → String → String → ℕ → ℕ → Store → Option LimitResult × Store
  allow t scope key limit window s =
      let k = redis_key scope key (window_start t.now window) in
      after_incr t k limit window (exchange t.incr_reply (counters.incr t.incr_at k) s)

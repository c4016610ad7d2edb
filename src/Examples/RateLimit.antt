-- ===== src/Examples/RateLimit.antt =====
-- The properties of the limiter, with a server that keeps one counter for each key.
use go_order_service.Prelude.{
  ℕ, suc, String, ◌≡◌, refl, ◌≤◌, ◌<◌, ◌+◌, false, Option, none, some, [], ◌∷◌, arith,
  if◌then◌else◌, ◌==◌, string_eq, eq_iff,
}
use go_order_service.Prelude.Strings.{decimal, decimal_before}
use go_order_service.RedisClient.{replied, unanswered}
use go_order_service.RateLimit.{
  Counter, Counters, live_value, bumped, renewed, window_start, redis_key,
}
use go_order_service.RateLimit.Counting.{Arrival}
use go_order_service.RateLimit.Bounds.{InWindow, granted, granted-le-limit}
use go_order_service.RateLimit.Service.{IsAnswered, granted-eq-limit}

abbrev pub Counts : Type 0
Counts = String → Option Counter

abbrev pub entry : Counts → String → Option Counter
entry s key = s key

abbrev pub incr : ℕ → String → Counts → ℕ × Counts
incr now key s =
    (suc (live_value now (s key)), λ k. if k == key then some (bumped now (s key)) else s k)

abbrev pub expire : ℕ → String → ℕ → Counts → Unit {0} × Counts
expire now key ttl s = (tt, λ k. if k == key then renewed now ttl (s key) else s k)

pub incr-entry_lem :
    (s : Counts) (now : ℕ) (key : String)
    → entry (incr now key s).1 key ≡ some (bumped now (entry s key))
incr-entry_lem s now key = rw ((eq_iff key key).1 refl) refl

pub incr-other_lem :
    (s : Counts) (now : ℕ) (key other : String)
    → (other == key) ≡ false
    → entry (incr now key s).1 other ≡ entry s other
incr-other_lem s now key other h = rw h refl

pub expire-entry_lem :
    (s : Counts) (now ttl : ℕ) (key : String)
    → entry (expire now key ttl s).1 key ≡ renewed now ttl (entry s key)
expire-entry_lem s now ttl key = rw ((eq_iff key key).1 refl) refl

pub expire-other_lem :
    (s : Counts) (now ttl : ℕ) (key other : String)
    → (other == key) ≡ false
    → entry (expire now key ttl s).1 other ≡ entry s other
expire-other_lem s now ttl key other h = rw h refl

abbrev pub counters : Counters Counts
counters = record {
  entry = entry;
  incr = incr;
  expire = expire;
  incr-value = λ s now key. refl;
  incr-entry = incr-entry_lem;
  incr-other = incr-other_lem;
  expire-entry = expire-entry_lem;
  expire-other = expire-other_lem;
}

abbrev pub no_counts : Counts
no_counts key = none

-- Logins within one minute.
abbrev arrival : ℕ → Arrival
arrival now = record {
  timing = record {
    now = now;
    incr_at = now + 1;
    expire_at = now + 2;
    incr_reply = replied;
    expire_reply = replied;
  };
  scope = "auth_login";
  key = "10.0.0.1";
  limit = 2;
}

-- One whose answer is lost.
abbrev lost : ℕ → Arrival
lost now = record (arrival now) { timing = record (arrival now).timing { incr_reply = unanswered } }

abbrev login_key : String
login_key = "rate_limit:auth_login:10.0.0.1:120"

-- Each of them is in the window.
early :
    (now : ℕ)
    → window_start now 60000000 ≡ 120000000
    → now + 1 < 120000000 + 60000000 + 1000000
    → InWindow 60000000 120000000 2 login_key (arrival now)
early now starts in_time = record {
  starts = starts;
  later = omega arith;
  in_time = in_time;
  limited = λ _. omega arith;
}

early_lost :
    (now : ℕ)
    → window_start now 60000000 ≡ 120000000
    → now + 1 < 120000000 + 60000000 + 1000000
    → InWindow 60000000 120000000 2 login_key (lost now)
early_lost now starts in_time = record {
  starts = starts;
  later = omega arith;
  in_time = in_time;
  limited = λ _. omega arith;
}

on_time :
    (now : ℕ)
    → window_start now 60000000 ≡ 120000000
    → redis_key "auth_login" "10.0.0.1" (window_start now 60000000) ≡ login_key
    → now + 1 < 120000000 + 60000000 + 1000000
    → IsAnswered 60000000 120000000 2 login_key (arrival now)
on_time now starts counts in_time = record {
  in_window = early now starts in_time;
  counts = counts;
  same_limit = refl;
  incr_replied = refl;
  expire_replied = refl;
}

granted-le-limit_example :
    granted counters 60000000 login_key
      (arrival 120000005 ∷ lost 120000010 ∷ arrival 130000000 ∷ arrival 179000000 ∷ [])
      no_counts
    ≤ 2
unfolding window_start
granted-le-limit_example =
    granted-le-limit counters 60000000 120000000 2 login_key
      (arrival 120000005 ∷ lost 120000010 ∷ arrival 130000000 ∷ arrival 179000000 ∷ []) no_counts
      refl
      (
        early 120000005 refl (omega arith),
        (
          early_lost 120000010 refl (omega arith),
          (early 130000000 refl (omega arith), (early 179000000 refl (omega arith), tt)),
        ),
      )

granted-eq-limit_example :
    granted counters 60000000 login_key
      (arrival 120000005 ∷ arrival 130000000 ∷ arrival 179000000 ∷ [])
      no_counts
    ≡ 2
unfolding window_start redis_key decimal decimal_before
granted-eq-limit_example =
    granted-eq-limit counters 60000000 120000000 2 login_key
      (arrival 120000005 ∷ arrival 130000000 ∷ arrival 179000000 ∷ []) no_counts refl
      (
        on_time 120000005 refl refl (omega arith),
        (
          on_time 130000000 refl refl (omega arith),
          (on_time 179000000 refl refl (omega arith), tt),
        ),
      )

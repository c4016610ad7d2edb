-- ===== src/RateLimit/Counting.antt =====
-- What a call of the limiter does to a counter.
use go_order_service.Prelude.{
  ℕ, String, ◌≡◌, refl, ◌≤◌, ◌<◌, ◌+◌, Bool, true, false, Option, none, some, arith, ◌==◌, nat_eq,
  string_eq, Bool-cases, ◌∙◌, inl, inr,
}
use go_order_service.RedisClient.{Reply, replied, unsent, unanswered, repeated, exchange}
use go_order_service.RateLimit.Stays.{
  Stays, Kept, value_of, window_start-le, Stays-live, Stays-bumped, Stays-renewed,
}
use go_order_service.RateLimit.{
  Counter, Counters, LimitResult, Timing, window_start, redis_key, allow, after_incr, limit_result,
}

-- A request as it comes to the limiter.
pub record Arrival : Type 0 where
  pub timing : Timing
  pub scope : String
  pub key : String
  pub limit : ℕ

abbrev pub key_of : ℕ → Arrival → String
key_of window a = redis_key a.scope a.key (window_start a.timing.now window)

abbrev pub is_granted : Option LimitResult → Bool
is_granted none = false
is_granted (some r) = r.allowed

-- What a call of the limiter does to the counter of its key: the counter never goes down, and a
-- count that is returned is the counter's, after it went up.
record Advanced (last : ℕ) (before : Option Counter) (count : Option ℕ) (after : Option Counter)
    : Type 0 where
  stays : Stays last after
  grows : value_of before ≤ value_of after
  counts : (c : ℕ) → count ≡ some c → (value_of before < c) × (value_of after ≡ c)

pub record Limited (last limit : ℕ) (before : Option Counter) (r : Option LimitResult)
    (after : Option Counter) : Type 0 where
  pub stays : Stays last after
  pub grows : value_of before ≤ value_of after
  pub granted : is_granted r ≡ true → (value_of before < value_of after) × (value_of after ≤ limit)

module _ (last limit window now count : ℕ) (before middle after : Option Counter) where
  counted-Limited :
      Advanced last before (some count) middle
      → Kept last middle after
      → Limited last limit before (some (limit_result limit window now count)) after
  counted-Limited h (stays, same) =
      let (more, value) = h.counts count refl in
      record {
        stays = stays;
        grows = omega (arith, same, h.grows);
        granted = λ q. (omega (arith, more, value, same), ground arith);
      }

  renewed-Limited :
      (renewal : Option (Unit {0}))
      → Advanced last before (some count) middle
      → Kept last middle after
      → Limited last limit before
          (elim renewal [ none ↦ none | some _ ↦ some (limit_result limit window now count) ])
          after
  renewed-Limited none h (stays, same) = record {
    stays = stays;
    grows = omega (arith, same, h.grows);
    granted = λ q. cc;
  }
  renewed-Limited (some _) h kept = counted-Limited h kept

module _ {Store : Type 0} (counters : Counters Store) where
  module _ (last at : ℕ) (key : String) (early : at < last) where
    incremented :
        (s : Store)
        → Stays last (counters.entry s key)
        → Advanced last
            (counters.entry s key)
            (some (counters.incr at key s).0)
            (counters.entry (counters.incr at key s).1 key)
    incremented s h =
        let (stays, value) = Stays-bumped last at (counters.entry s key) h early in
        let e = counters.incr-entry s at key in
        let n = counters.incr-value s at key in
        let l = Stays-live last at (counters.entry s key) h early in
        record {
          stays = rw e stays;
          grows = rw (e, value) (omega arith);
          counts = λ c q. rw (e, value) (ground arith);
        }

    incr-Advanced :
        (r : Reply) (s : Store)
        → Stays last (counters.entry s key)
        → Advanced last
            (counters.entry s key)
            (exchange r (counters.incr at key) s).0
            (counters.entry (exchange r (counters.incr at key) s).1 key)
    incr-Advanced replied s h = incremented s h
    incr-Advanced unsent s h = record { stays = h; grows = omega arith; counts = λ c q. cc }
    incr-Advanced unanswered s h =
        let once = incremented s h in
        record { stays = once.stays; grows = once.grows; counts = λ c q. cc }
    incr-Advanced repeated s h =
        let once = incremented s h in
        let twice = incremented (counters.incr at key s).1 once.stays in
        record {
          stays = twice.stays;
          grows = omega (arith, once.grows, twice.grows);
          counts =
              λ c q. let (more, same) = twice.counts c q in (omega (arith, once.grows, more), same);
        }

  -- `EXPIRE` keeps the value, and sets a deadline that is late enough.
  module _ (last at ttl : ℕ) (key : String) (late : last ≤ at + ttl) where
    expired :
        (s : Store)
        → Stays last (counters.entry s key)
        → Kept last (counters.entry s key) (counters.entry (counters.expire at key ttl s).1 key)
    expired s h =
        rw (counters.expire-entry s at ttl key)
          (Stays-renewed last at ttl (counters.entry s key) h late)

    expire-Kept :
        (r : Reply) (s : Store)
        → Stays last (counters.entry s key)
        → Kept last
            (counters.entry s key)
            (counters.entry (exchange r (counters.expire at key ttl) s).1 key)
    expire-Kept replied s h = expired s h
    expire-Kept unsent s h = (h, refl)
    expire-Kept unanswered s h = expired s h
    expire-Kept repeated s h =
        let (stays, same) = expired s h in
        let (stays', same') = expired (counters.expire at key ttl s).1 stays in
        (stays', same' ∙ same)

  module _ (window last limit : ℕ) (t : Timing) (key : String)
      (late : last ≤ t.expire_at + (window + 1000000)) where
    after_incr-Limited :
        (count : Option ℕ) (s : Store) (before : Option Counter)
        → Advanced last before count (counters.entry s key)
        → Limited last limit before
            (after_incr counters t key limit window (count, s)).0
            (counters.entry (after_incr counters t key limit window (count, s)).1 key)
    after_incr-Limited none s before h = record {
      stays = h.stays;
      grows = h.grows;
      granted = λ q. cc;
    }
    after_incr-Limited (some count) s before h = elim (Bool-cases (count == 1)) [
      | inl first ↦ rw first (
          renewed-Limited last limit window t.now count before _ _ _ h
            (expire-Kept last t.expire_at (window + 1000000) key late t.expire_reply s h.stays))
      | inr later ↦
          rw later (counted-Limited last limit window t.now count before _ _ h (h.stays, refl))
    ]

  -- A call of `Allow` in the window, seen at its key.
  pub allow-Limited :
      (window start : ℕ) (a : Arrival) (s : Store)
      → window_start a.timing.now window ≡ start
      → a.timing.now ≤ a.timing.expire_at
      → a.timing.incr_at < start + window + 1000000
      → Stays (start + window + 1000000) (counters.entry s (key_of window a))
      → Limited
          (start + window + 1000000)
          a.limit
          (counters.entry s (key_of window a))
          (allow counters a.timing a.scope a.key a.limit window s).0
          (counters.entry
            (allow counters a.timing a.scope a.key a.limit window s).1
            (key_of window a))
  unfolding allow
  allow-Limited window start a s starts later in_time h =
      let from = window_start-le a.timing.now window in
      let late : start + window + 1000000 ≤ a.timing.expire_at + (window + 1000000) =
        omega (arith, from, starts, later) in
      after_incr-Limited window (start + window + 1000000) a.limit a.timing (key_of window a) late _
        _ _
        (incr-Advanced (start + window + 1000000) a.timing.incr_at (key_of window a) in_time
          a.timing.incr_reply s h)

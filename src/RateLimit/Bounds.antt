-- ===== src/RateLimit/Bounds.antt =====
-- How many requests the limiter lets through.
use go_order_service.Prelude.{
  ℕ, suc, String, ◌≡◌, ◌≤◌, ◌<◌, ◌+◌, ◌-◌, true, ◌&&◌, none, List, [], ◌∷◌, arith, if◌then◌else◌,
  ◌==◌, nat_eq, string_eq, Bool-cases, eq_iff, inl, inr,
}
use go_order_service.RateLimit.{Counters, window_start, allow}
use go_order_service.RateLimit.Stays.{Stays, value_of}
use go_order_service.RateLimit.Keys.{allow-other}
use go_order_service.RateLimit.Counting.{Arrival, key_of, is_granted, allow-Limited}

-- A request of one window, whose increment reaches the server within a second after the window. One
-- that counts under the key has no higher limit than `limit`.
pub record InWindow (window start limit : ℕ) (counted : String) (a : Arrival) : Type 0 where
  pub starts : window_start a.timing.now window ≡ start
  pub later : a.timing.now ≤ a.timing.expire_at
  pub in_time : a.timing.incr_at < start + window + 1000000
  pub limited : (key_of window a == counted) ≡ true → a.limit ≤ limit

abbrev pub AllInWindow : ℕ → ℕ → ℕ → String → List Arrival → Type 0
AllInWindow window start limit counted [] = Unit
AllInWindow window start limit counted (a ∷ arrivals) =
    InWindow window start limit counted a × AllInWindow window start limit counted arrivals

module _ {Store : Type 0} (counters : Counters Store) where
  -- How many of the requests that count under a key are let through, one call of `Allow` after
  -- another.
  unfoldable pub granted : ℕ → String → List Arrival → Store → ℕ
  granted window counted [] s = 0
  granted window counted (a ∷ arrivals) s =
      let (r, s') = allow counters a.timing a.scope a.key a.limit window s in
      let rest = granted window counted arrivals s' in
      if key_of window a == counted && is_granted r then suc rest else rest

  granted-le :
      (window start limit : ℕ) (counted : String) (arrivals : List Arrival) (s : Store)
      → AllInWindow window start limit counted arrivals
      → Stays (start + window + 1000000) (counters.entry s counted)
      → granted window counted arrivals s ≤ limit - value_of (counters.entry s counted)
  unfolding granted
  granted-le window start limit counted [] s all h = omega arith
  granted-le window start limit counted (a ∷ arrivals) s (first, rest) h =
      elim (Bool-cases (key_of window a == counted)) [
        | inl same ↦
            let e = (eq_iff (key_of window a) counted).0 same in
            let here =
              allow-Limited counters window start a s first.starts first.later first.in_time
                (rw e h) in
            let there = rw e at here in
            let ih =
              granted-le window start limit counted arrivals
                (allow counters a.timing a.scope a.key a.limit window s).1 rest there.stays in
            ground (arith, there.granted, there.grows, first.limited same, ih)
        | inr other ↦
            let e = allow-other counters window a counted s (
              ground (arith, eq_iff counted (key_of window a), eq_iff (key_of window a) counted)) in
            let ih =
              granted-le window start limit counted arrivals
                (allow counters a.timing a.scope a.key a.limit window s).1 rest (rw e h) in
            ground (arith, e, ih)
      ]

  -- Of the requests of one window of time, at most `limit` are let through under a key that had no
  -- counter, whatever other keys are counted in between and whatever becomes of the commands, as long
  -- as each increment comes to the server before a second after the window is over, and each clock
  -- reading before the renewal.
  pub granted-le-limit :
      (window start limit : ℕ) (counted : String) (arrivals : List Arrival) (s : Store)
      → counters.entry s counted ≡ none
      → AllInWindow window start limit counted arrivals
      → granted window counted arrivals s ≤ limit
  granted-le-limit window start limit counted arrivals s new all =
      omega (arith, granted-le window start limit counted arrivals s all (rw new tt))

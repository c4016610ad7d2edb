-- ===== src/RateLimit/Service.antt =====
-- That the limiter refuses nobody too early.
use go_order_service.Prelude.{
  ℕ, suc, String, ◌≡◌, refl, ◌≤◌, ◌<◌, ◌+◌, ◌-◌, none, some, List, [], ◌∷◌, arith, leb,
  if◌then◌else◌, ◌==◌, string_eq, Bool-cases, eq_iff, nat_eq, inl, inr, ◌∙◌,
}
use go_order_service.Prelude.Lists.{length}
use go_order_service.RedisClient.{replied}
use go_order_service.RateLimit.{Counters, Timing, window_start, allow, after_incr}
use go_order_service.RateLimit.Stays.{
  Stays, value_of, window_start-le, Stays-live, Stays-bumped, Stays-renewed,
}
use go_order_service.RateLimit.Counting.{Arrival, key_of, is_granted, allow-Limited}
use go_order_service.RateLimit.Bounds.{granted, InWindow}

-- A request of the window that counts under the key, with the limit, and is answered.
pub record IsAnswered (window start limit : ℕ) (counted : String) (a : Arrival) : Type 0 where
  pub in_window : InWindow window start limit counted a
  pub counts : key_of window a ≡ counted
  pub same_limit : a.limit ≡ limit
  pub incr_replied : a.timing.incr_reply ≡ replied
  pub expire_replied : a.timing.expire_reply ≡ replied

abbrev pub AllAnswered : ℕ → ℕ → ℕ → String → List Arrival → Type 0
AllAnswered window start limit counted [] = Unit
AllAnswered window start limit counted (a ∷ arrivals) =
    IsAnswered window start limit counted a × AllAnswered window start limit counted arrivals

module _ {Store : Type 0} (counters : Counters Store) where
  after_incr-Answered :
      (t : Timing) (key : String) (limit window count : ℕ) (s : Store)
      → t.expire_reply ≡ replied
      → (is_granted (after_incr counters t key limit window (some count, s)).0 ≡ leb count limit)
        × ((last : ℕ)
            → Stays last (counters.entry s key)
            → last ≤ t.expire_at + (window + 1000000)
            → value_of
                (counters.entry (after_incr counters t key limit window (some count, s)).1 key)
              ≡ value_of (counters.entry s key))
  after_incr-Answered t key limit window count s e = elim (Bool-cases (count == 1)) [
    | inl first ↦
        rw (first, e)
          (
            refl,
            λ last h late.
                rw (counters.expire-entry s t.expire_at (window + 1000000) key)
                  (Stays-renewed last t.expire_at (window + 1000000) (counters.entry s key) h
                    late).1,
          )
    | inr later ↦ rw later (refl, λ last h late. refl)
  ]

  -- An answered call counts once, and lets the request through exactly up to the limit.
  allow-Answered :
      (window start : ℕ) (a : Arrival) (s : Store)
      → window_start a.timing.now window ≡ start
      → a.timing.now ≤ a.timing.expire_at
      → a.timing.incr_at < start + window + 1000000
      → a.timing.incr_reply ≡ replied
      → a.timing.expire_reply ≡ replied
      → Stays (start + window + 1000000) (counters.entry s (key_of window a))
      → (is_granted (allow counters a.timing a.scope a.key a.limit window s).0
          ≡ leb (suc (value_of (counters.entry s (key_of window a)))) a.limit)
        × (value_of (
              counters.entry
                (allow counters a.timing a.scope a.key a.limit window s).1
                (key_of window a))
            ≡ suc (value_of (counters.entry s (key_of window a))))
        × Stays (start + window + 1000000) (
            counters.entry
              (allow counters a.timing a.scope a.key a.limit window s).1
              (key_of window a))
  unfolding allow
  allow-Answered window start a s starts later in_time incr_replied expire_replied h =
      let last = start + window + 1000000 in
      let key = key_of window a in
      let at = a.timing.incr_at in
      let (count, s') = counters.incr at key s in
      let (stays, value) = Stays-bumped last at (counters.entry s key) h in_time in
      let e = counters.incr-entry s at key in
      let n : count ≡ suc (value_of (counters.entry s key)) = omega (
        arith,
        counters.incr-value s at key,
        Stays-live last at (counters.entry s key) h in_time,
      ) in
      let (grants, keeps) =
        after_incr-Answered a.timing key a.limit window count s' expire_replied in
      let late : last ≤ a.timing.expire_at + (window + 1000000) =
        omega (arith, window_start-le a.timing.now window, starts, later) in
      let limited = allow-Limited counters window start a s starts later in_time h in
      let stays' = limited.stays in
      rw incr_replied
        (grants ∙ rw n refl, keeps last (rw e stays) late ∙ rw e value, rw incr_replied at stays')

  granted-eq :
      (window start limit : ℕ) (counted : String) (arrivals : List Arrival) (s : Store)
      → AllAnswered window start limit counted arrivals
      → Stays (start + window + 1000000) (counters.entry s counted)
      → granted counters window counted arrivals s ≡ (
          let left = limit - value_of (counters.entry s counted) in
          if leb (length arrivals) left then length arrivals else left)
  unfolding granted
  granted-eq window start limit counted [] s all h = ground arith
  granted-eq window start limit counted (a ∷ arrivals) s (first, rest) h =
      let e = first.counts in
      let w = first.in_window in
      let (grants, more, stays) =
        allow-Answered window start a s w.starts w.later w.in_time first.incr_replied
          first.expire_replied (rw e h) in
      let ih =
        granted-eq window start limit counted arrivals
          (allow counters a.timing a.scope a.key a.limit window s).1 rest (rw e at stays) in
      ground (
        arith,
        first.same_limit,
        rw e at grants,
        rw e at more,
        ih,
        eq_iff (key_of window a) counted,
        e,
      )

  -- Where Redis answers, the requests of one window of time that count under a key that had no counter
  -- are let through exactly up to the limit: all of them if there are no more, and `limit` of them if
  -- there are, as long as each increment comes to the server before a second after the window is over,
  -- and each clock reading before the renewal.
  pub granted-eq-limit :
      (window start limit : ℕ) (counted : String) (arrivals : List Arrival) (s : Store)
      → counters.entry s counted ≡ none
      → AllAnswered window start limit counted arrivals
      → granted counters window counted arrivals s
        ≡ (if leb (length arrivals) limit then length arrivals else limit)
  granted-eq-limit window start limit counted arrivals s new all =
      ground (arith, granted-eq window start limit counted arrivals s all (rw new tt))

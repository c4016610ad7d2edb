-- ===== src/RateLimit/Keys.antt =====
-- What a call of the limiter does to the counters of other keys.
use go_order_service.Prelude.{
  ℕ, String, ◌≡◌, refl, ◌+◌, false, Option, none, some, ◌==◌, nat_eq, string_eq, Bool-cases, ◌∙◌,
  inl, inr,
}
use go_order_service.RedisClient.{Reply, replied, unsent, unanswered, repeated, exchange}
use go_order_service.RateLimit.{Counters, Timing, allow, after_incr}
use go_order_service.RateLimit.Counting.{Arrival, key_of}

module _ {Store : Type 0} (counters : Counters Store) where
  -- A command that leaves other keys alone does so whatever becomes of it.
  exchange-other :
      {A : Type 0} (command : Store → A × Store) (other : String)
      → ((s : Store) → counters.entry (command s).1 other ≡ counters.entry s other)
      → (r : Reply) (s : Store)
      → counters.entry (exchange r command s).1 other ≡ counters.entry s other
  exchange-other command other h replied s = h s
  exchange-other command other h unsent s = refl
  exchange-other command other h unanswered s = h s
  exchange-other command other h repeated s = h (command s).1 ∙ h s

  after_incr-other :
      (t : Timing) (key other : String) (limit window : ℕ) (count : Option ℕ) (s : Store)
      → (other == key) ≡ false
      → counters.entry (after_incr counters t key limit window (count, s)).1 other
        ≡ counters.entry s other
  after_incr-other t key other limit window none s h = refl
  after_incr-other t key other limit window (some count) s h = elim (Bool-cases (count == 1)) [
    | inl first ↦ rw first (
        exchange-other _ other
          (λ s'. counters.expire-other s' t.expire_at (window + 1000000) key other h) t.expire_reply
          s)
    | inr later ↦ rw later refl
  ]

  pub allow-other :
      (window : ℕ) (a : Arrival) (other : String) (s : Store)
      → (other == key_of window a) ≡ false
      → counters.entry (allow counters a.timing a.scope a.key a.limit window s).1 other
        ≡ counters.entry s other
  unfolding allow
  allow-other window a other s h =
      let command = counters.incr a.timing.incr_at (key_of window a) in
      let (count, s') = exchange a.timing.incr_reply command s in
      after_incr-other a.timing (key_of window a) other a.limit window count s' h
      ∙ exchange-other command other
          (λ s'. counters.incr-other s' a.timing.incr_at (key_of window a) other h)
          a.timing.incr_reply s

-- ===== src/AppStart/Attempts.antt =====
-- How `Retry` ends.
use go_order_service.Prelude.{
  ℕ, zero, suc, ◌≡◌, refl, ◌≤◌, ◌<◌, ◌+◌, Bool, true, false, Option, none, some, arith, ◌==◌,
  nat_eq, Bool-cases, inl, inr, if◌then◌else◌,
}
use go_order_service.AppStart.{Returned, Attempt, connected, failed, give_up, retry_from, retry}

module _ {T E : Type 0} (fn : ℕ → Attempt T E) (done : ℕ → Bool) (ctx_err : E) where
  -- The attempts before one have failed, and the context was there after each.
  abbrev pub FailedBefore : ℕ → Type 0
  FailedBefore attempt =
      (j : ℕ) → 1 ≤ j → j < attempt → ((e : E) × (fn j ≡ failed e)) × (done j ≡ false)

  -- The first success, the last failure, or the end of the context, at an attempt that is made.
  pub data EndsAt (attempts attempt : ℕ) : Returned T E → Type 0 where
    succeeds :
        {v : T}
        → fn attempt ≡ connected v
        → EndsAt attempts attempt (record { value = some v; error = none })
    exhausts :
        {e : E}
        → attempt ≡ attempts
        → fn attempt ≡ failed e
        → EndsAt attempts attempt (record { value = none; error = some e })
    stops :
        {e : E}
        → attempt < attempts
        → fn attempt ≡ failed e
        → done attempt ≡ true
        → EndsAt attempts attempt (record { value = none; error = some ctx_err })

  abbrev pub Tried : ℕ → Returned T E → Type 0
  Tried attempts r =
      (attempt : ℕ) × (1 ≤ attempt)
      × (attempt ≤ attempts)
      × FailedBefore attempt
      × EndsAt attempts attempt r

  FailedBefore-suc :
      (attempt : ℕ) (e : E)
      → fn attempt ≡ failed e
      → done attempt ≡ false
      → FailedBefore attempt
      → FailedBefore (suc attempt)
  FailedBefore-suc attempt e fails goes h j low high = elim (Bool-cases (j == attempt)) [
    | inl same ↦ let q : j ≡ attempt = ground arith in rw q ((e, fails), goes)
    | inr other ↦ h j low (ground arith)
  ]

  module _ (attempts attempt : ℕ) (low : 1 ≤ attempt) (high : attempt ≤ attempts)
      (h : FailedBefore attempt) (rest : E → Returned T E)
      (later : (e : E)
        → attempt < attempts
        → FailedBefore (suc attempt)
        → Tried attempts (rest e)) where
    give_up-Tried :
        (e : E) (at_end cancelled : Bool)
        → fn attempt ≡ failed e
        → (attempt == attempts) ≡ at_end
        → done attempt ≡ cancelled
        → Tried attempts (
            if at_end
            then record { value = none; error = some e }
            else (if cancelled then record { value = none; error = some ctx_err } else rest e))
    give_up-Tried e true cancelled fails a c =
        (attempt, low, high, h, exhausts (ground arith) fails)
    give_up-Tried e false true fails a c = (attempt, low, high, h, stops (ground arith) fails c)
    give_up-Tried e false false fails a c =
        later e (ground arith) (FailedBefore-suc attempt e fails c h)

    round-Tried :
        (a : Attempt T E)
        → fn attempt ≡ a
        → Tried attempts (elim a [
          | connected v ↦ record { value = some v; error = none }
          | failed e ↦ give_up fn done ctx_err attempts attempt e (rest e)
        ])
    round-Tried (connected v) e = (attempt, low, high, h, succeeds e)
    round-Tried (failed x) e = give_up-Tried x (attempt == attempts) (done attempt) e refl refl

  retry_from-Tried :
      (rounds attempts attempt : ℕ) (last : Option E)
      → 1 ≤ attempt
      → suc rounds + attempt ≡ suc attempts
      → FailedBefore attempt
      → Tried attempts (retry_from fn done ctx_err (suc rounds) attempts attempt last)
  unfolding retry_from
  retry_from-Tried zero attempts attempt last low left h =
      round-Tried attempts attempt low (omega arith) h
        (λ e. retry_from fn done ctx_err zero attempts (suc attempt) (some e))
        (λ e more _. absurd (omega arith)) (fn attempt) refl
  retry_from-Tried (suc rounds) attempts attempt last low left h =
      round-Tried attempts attempt low (omega arith) h
        (λ e. retry_from fn done ctx_err (suc rounds) attempts (suc attempt) (some e))
        (λ e more h'.
          retry_from-Tried rounds attempts (suc attempt) (some e) (omega arith) (omega arith) h')
        (fn attempt) refl

  -- For a positive number of attempts, `Retry` ends at an attempt of that number at most, before which
  -- all have failed: with the value if it succeeds, with its error if it is the last one, or with the
  -- error of the context if that is over. It never returns without a value and an error.
  pub retry-Tried : (n : ℕ) → Tried (suc n) (retry fn done ctx_err (suc n))
  unfolding retry
  retry-Tried n =
      retry_from-Tried n (suc n) 1 none (omega arith) (omega arith)
        (λ j low high. absurd (omega arith))

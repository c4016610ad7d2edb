-- ===== src/AppStart.antt =====
-- internal/appstart: `Retry`, which the programs of cmd connect to their services with. The function
-- that it calls is the list of what each call returns, by the number of the attempt.
pub mod Attempts
use go_order_service.Prelude.{ℕ, zero, suc, Bool, Option, none, some, if◌then◌else◌, ◌==◌, nat_eq}

-- What a call of Go returns: a value and an error, where `none` is the zero value and nil.
pub record Returned (T E : Type 0) : Type 0 where
  pub value : Option T
  pub error : Option E

pub data Attempt (T E : Type 0) : Type 0 where
  connected : T → Attempt T E
  failed : E → Attempt T E

module _ {T E : Type 0} (fn : ℕ → Attempt T E) (done : ℕ → Bool) (ctx_err : E) where
  -- The end of a round whose call failed: the last one gives up; another waits for the delay, or ends
  -- with the context.
  abbrev give_up : ℕ → ℕ → E → Returned T E → Returned T E
  give_up attempts attempt e rest =
      if attempt == attempts
      then record { value = none; error = some e }
      else (if done attempt then record { value = none; error = some ctx_err } else rest)

  -- The loop, by the rounds that are left, from an attempt, after an error or none.
  unfoldable pub retry_from : ℕ → ℕ → ℕ → Option E → Returned T E
  retry_from zero attempts attempt last = record { value = none; error = last }
  retry_from (suc rounds) attempts attempt last = elim (fn attempt) [
    | connected v ↦ record { value = some v; error = none }
    | failed e ↦ give_up attempts attempt e (retry_from rounds attempts (suc attempt) (some e))
  ]

  -- `Retry`; for a number of attempts that is not positive, zero.
  unfoldable pub retry : ℕ → Returned T E
  retry attempts = retry_from attempts attempts 1 none

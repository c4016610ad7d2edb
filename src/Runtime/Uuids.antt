-- ===== src/Runtime/Uuids.antt =====
-- What follows from the documented behaviour of the UUID libraries.
use go_order_service.Prelude.{ℕ, ◌≡◌, false, arith, ◌==◌, string_eq, eq_iff}
use go_order_service.Runtime.{Env}

module _ (env : Env) where
  -- The text of a UUID is not empty.
  pub render-ne-nil : (u : ℕ) → (env.render u == "") ≡ false
  render-ne-nil u = ground (arith, eq_iff (env.render u) "", env.parse-render u, env.parse-nil)

  -- Two UUIDs with one text are one.
  pub render-injective : (u v : ℕ) → env.render u ≡ env.render v → u ≡ v
  render-injective u v h = ground (arith, env.scan-render u, env.scan-render v)

-- ===== src/Runtime/Autocommit.antt =====
-- How a statement ends that writes outside a transaction.
use go_order_service.Prelude.{◌≡◌, refl, inl, inr, true, false, if◌then◌else◌}
use go_order_service.Schema.{Db}
use go_order_service.Runtime.{
  unavailable, Result, ok, err, CommitOutcome, committed, rolled_back, answer_lost, Env, World,
  tick, Statement, autocommit, run_query, execute,
}
use go_order_service.Runtime.Ends.{Ends, Atomic}

module _ {A : Type 0} {Q : A → Db → Type 0} where
  Ends-autocommit :
      (before : Db) (outcome : CommitOutcome) (r : Result (A × Db)) (w : World)
      → w.db ≡ before
      → ((a : A) (db : Db) → r ≡ ok (a, db) → Q a db)
      → Ends Q (Atomic before Q) (autocommit before outcome (run_query r w))
  Ends-autocommit before committed (ok (a, db)) w same h = record { as_stated = h a db refl }
  Ends-autocommit before rolled_back (ok (a, db)) w same h = record { as_stated = inl refl }
  Ends-autocommit before answer_lost (ok (a, db)) w same h = record {
    as_stated = inr (refl, a, h a db refl);
  }
  Ends-autocommit before committed (err e) w same h = record { as_stated = inl same }
  Ends-autocommit before rolled_back (err e) w same h = record { as_stated = inl refl }
  Ends-autocommit before answer_lost (err e) w same h = record { as_stated = inl same }

  -- A statement outside a transaction writes what it says, or fails like a transaction.
  pub Ends-execute :
      (env : Env) (statement : Statement A) (w : World)
      → ((a : A) (db : Db) → statement (env.now w.ticks) w.db ≡ ok (a, db) → Q a db)
      → Ends Q (Atomic w.db Q) (execute env statement w)
  unfolding execute
  Ends-execute env statement w h =
      elim (env.fault w.ticks)
        as (λ b. Ends Q (Atomic w.db Q) (
          if b
          then (err unavailable, tick w)
          else autocommit w.db (env.commit w.ticks)
              (run_query (statement (env.now w.ticks) w.db) (tick w)))) [
                | true ↦ record { as_stated = inl refl }
                | false ↦ Ends-autocommit w.db (env.commit w.ticks) _ (tick w) refl h
              ]

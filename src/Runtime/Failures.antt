-- ===== src/Runtime/Failures.antt =====
-- The errors of a transaction.
use go_order_service.Prelude.{ℕ, true, false, some, if◌then◌else◌}
use go_order_service.Schema.{Db}
use go_order_service.Runtime.{
  Error, unavailable, commit_unanswered, Result, ok, err, CommitOutcome, committed, rolled_back,
  answer_lost, Env, World, tick, Action, conclude, settle, with_tx,
}
use go_order_service.Runtime.Ends.{Ends}

-- The errors of a transaction are those of its body and its own.
module _ {A : Type 0} (F : Error → Type 0) (begin : F unavailable)
    (commit : F commit_unanswered) where
  conclude_errors :
      (before : Db) (a : A) (outcome : CommitOutcome) (w : World)
      → Ends (λ _ _. Unit) (λ e _. F e) (conclude before a outcome w)
  conclude_errors before a committed w = record { as_stated = tt }
  conclude_errors before a rolled_back w = record { as_stated = commit }
  conclude_errors before a answer_lost w = record { as_stated = commit }

  settle_errors :
      (before : Db) (outcome : ℕ → CommitOutcome) (r : Result A × World)
      → Ends (λ _ _. Unit) (λ e _. F e) r
      → Ends (λ _ _. Unit) (λ e _. F e) (settle before outcome r)
  settle_errors before outcome (ok a, w) h = conclude_errors before a (outcome w.ticks) w
  settle_errors before outcome (err e, w) h = record { as_stated = h.as_stated }

  pub with_tx_errors :
      (env : Env) (body : Action A) (w : World)
      → ((v : World) → Ends (λ _ _. Unit) (λ e _. F e) (body v))
      → Ends (λ _ _. Unit) (λ e _. F e) (with_tx env body w)
  unfolding with_tx
  with_tx_errors env body w h =
      elim (env.fault w.ticks)
        as (λ b.
          Ends {A = A} (λ _ _. Unit) (λ e _. F e)
            (if b
              then (err unavailable, tick w)
              else settle w.db env.commit
                  (body (record (tick w) { tx = some (env.now w.ticks) })))) [
                    | true ↦ record { as_stated = begin }
                    | false ↦ settle_errors w.db env.commit _ (h _)
                  ]

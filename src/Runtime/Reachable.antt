-- ===== src/Runtime/Reachable.antt =====
-- A time at which nothing outside the code fails.
use go_order_service.Prelude.{ℕ, ◌≡◌, refl, false, ◌==◌, nat_eq}
use go_order_service.Prelude.Lists.{contains}
use go_order_service.Schema.{Db}
use go_order_service.Runtime.{
  Error, Result, ok, err, Env, World, Action, CommitOutcome, committed, rolled_back, answer_lost,
  conclude, settle, with_tx, new_uuid,
}
use go_order_service.Runtime.Ends.{Ends}

pub record Reachable (env : Env) : Type 0 where
  pub answers : (n : ℕ) → env.fault n ≡ false
  pub commits : (n : ℕ) → env.commit n ≡ committed

-- No row has an id that `uuid.New` gives.
pub record Unused (env : Env) (db : Db) : Type 0 where
  pub orders : (n : ℕ) → contains (λ o. o.id == env.fresh n) db.orders ≡ false
  pub payments : (n : ℕ) → contains (λ y. y.id == env.fresh n) db.payments ≡ false
  pub events : (n : ℕ) → contains (λ e. e.id == env.fresh n) db.outbox_events ≡ false
  pub keys : (n : ℕ) → contains (λ k. k.id == env.fresh n) db.idempotency_keys ≡ false
  pub deliveries : (n : ℕ) → contains (λ d. d.id == env.fresh n) db.notification_deliveries ≡ false

-- No error is possible.
abbrev pub Never : Error → Db → Type 0
Never e db = ⊥

module _ (env : Env) where
  -- A new UUID is one that `uuid.New` gives.
  pub new_uuid-fresh :
      (w : World)
      → Ends
          (λ text db. ((n : ℕ) × (text ≡ env.render (env.fresh n))) × (db ≡ w.db))
          Never
          (new_uuid env w)
  unfolding new_uuid
  new_uuid-fresh w = record { as_stated = ((w.ticks, refl), refl) }

  module _ (good : Reachable env) {A : Type 0} {Q : A → Db → Type 0} where
    concluded :
        (before : Db) (a : A) (outcome : CommitOutcome) (w : World)
        → outcome ≡ committed
        → Q a w.db
        → Ends Q Never (conclude before a outcome w)
    concluded before a committed w e h = record { as_stated = h }
    concluded before a rolled_back w e h = cc
    concluded before a answer_lost w e h = cc

    settled :
        (before : Db) (r : Result A × World)
        → Ends Q Never r
        → Ends Q Never (settle before env.commit r)
    settled before (ok a, w) h =
        concluded before a (env.commit w.ticks) w (good.commits w.ticks) h.as_stated
    settled before (err e, w) h = absurd h.as_stated

    -- A transaction whose body succeeds is committed.
    pub with_tx-Never :
        (body : Action A) (w : World)
        → ((v : World) → v.db ≡ w.db → Ends Q Never (body v))
        → Ends Q Never (with_tx env body w)
    unfolding with_tx
    with_tx-Never body w h = rw (good.answers w.ticks) (settled w.db _ (h _ refl))

-- An action that cannot fail ends as it does where it does not fail.
pub as_stated-Never :
    {A : Type 0} {Q : A → Db → Type 0} {E : Error → Db → Type 0} (r : Result A × World)
    → Ends (λ _ _. Unit) Never r
    → Ends Q E r
    → Ends Q Never r
as_stated-Never (ok a, w) never h = record { as_stated = h.as_stated }
as_stated-Never (err e, w) never h = absurd never.as_stated

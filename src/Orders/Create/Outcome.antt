-- ===== src/Orders/Create/Outcome.antt =====
-- How `CreateOrder` ends.
use mathlib.Core.Path.{subst}
use go_order_service.Prelude.{
  ℕ, ◌≡◌, refl, ◌⊎◌, inl, inr, true, false, ◌||◌, some, arith, ◌==◌, string_eq, ◌∙◌,
}
use go_order_service.Prelude.Int.{pos, leb_ℤ}
use go_order_service.Schema.{Db, Order, IdempotencyKey}
use go_order_service.Runtime.{Result, ok, err, Env, World}
use go_order_service.Runtime.Ends.{
  Ends, Any, Atomic, Either, Ends-bind, Ends-pure, Ends-raise, Ends-if, Ends-weaken, Ends-attempt,
  Ends-count, Ends-with_tx,
}
use go_order_service.Sqlc.Orders.{find_order}
use go_order_service.Sqlc.Idempotency.{find_key}
use go_order_service.Store.Reads.{
  Same, KeyFound, get_order-OrderFound, get_idempotency_key-KeyFound,
}
use go_order_service.Orders.Create.{
  CreateOrderParams, CreateOrderResult, uuid_text, conflicts, stored_status, create_key,
  create_currency, create_hash, create_order_body, replay_create, create_new, answer_create,
  create_order,
}
use go_order_service.Orders.Create.Effects.{Created, create_order_body-Created}

-- The tests that a request passes before its key is looked up.
pub record Admissible (env : Env) (p : CreateOrderParams) : Type 0 where
  pub keyed : (create_key env p == "") ≡ false
  pub complete :
      (p.user_id == "" || leb_ℤ p.amount_cents (pos 0) || create_currency env p == "") ≡ false

-- The database holds the answer to the request: its key, for the same request, and the order.
pub record Recorded (env : Env) (p : CreateOrderParams) (o : Order) (code : ℕ) (db : Db)
    : Type 0 where
  pub key : IdempotencyKey
  pub owner : env.scan p.user_id ≡ some key.user_id
  pub found : find_key key.user_id (create_key env p) db.idempotency_keys ≡ some key
  pub agrees : conflicts key p.method p.path (create_hash env p) ≡ false
  pub resource : env.scan (uuid_text env key.resource_id) ≡ some o.id
  pub stored : find_order o.id db.orders ≡ some o
  pub status : stored_status key ≡ code

-- A new order is made, or a recorded one is returned and nothing changes.
abbrev pub CreateOutcome : Env → CreateOrderParams → Db → CreateOrderResult → Db → Type 0
CreateOutcome env p before r after =
    (Created env p before r.order after × (r.status_code ≡ 201) × (r.cached ≡ false))
    ⊎ ((after ≡ before) × Recorded env p r.order r.status_code before × (r.cached ≡ true))

module _ (env : Env) (p : CreateOrderParams) where
  replay_create-Outcome :
      (k : IdempotencyKey) (before : Db) (w : World)
      → KeyFound env p.user_id (create_key env p) before k w.db
      → Ends
          (CreateOutcome env p before)
          (Atomic before (Created env p before))
          (replay_create env p k w)
  unfolding replay_create
  replay_create-Outcome k before w h =
      Ends-if (conflicts k p.method p.path (create_hash env p)) _ _ w
        (λ _. Ends-raise _ w (inl h.unchanged))
        λ agrees.
          Ends-bind _ _ w
            (Ends-weaken _ (get_order-OrderFound env _ w) (λ _ _ f. f)
              (λ e v s. inl (s ∙ h.unchanged)))
            λ o v found. Ends-pure _ v (
              inr (
                found.unchanged ∙ h.unchanged,
                record {
                  key = k;
                  owner = h.scanned;
                  found = h.found;
                  agrees = agrees;
                  resource = found.scanned;
                  stored = ground arith;
                  status = refl;
                },
                refl,
              ))

  -- A request for which no key is found.
  pub create_new-Outcome :
      (before : Db) (w : World)
      → w.db ≡ before
      → Ends
          (λ r after.
            Created env p before r.order after × (r.status_code ≡ 201) × (r.cached ≡ false))
          (Atomic before (Created env p before))
          (create_new env p w)
  unfolding create_new
  create_new-Outcome before w same =
      subst
        (λ db.
          Ends
            (λ r after. Created env p db r.order after × (r.status_code ≡ 201) × (r.cached ≡ false))
            (Atomic db (Created env p db)) (create_new env p w))
        same
        (Ends-bind _ _ w
          (Ends-with_tx env _ w λ v e.
            subst (λ db. Ends (Created env p db) Any (create_order_body env p v)) e
              (create_order_body-Created env p v))
          λ o v made. Ends-count _ _ v λ u e. Ends-pure _ u (rw e made, refl, refl))

  answer_create-Outcome :
      (r : Result IdempotencyKey) (before : Db) (w : World)
      → Either (KeyFound env p.user_id (create_key env p) before) (Same before) r w.db
      → Ends
          (CreateOutcome env p before)
          (Atomic before (Created env p before))
          (answer_create env p r w)
  unfolding answer_create
  answer_create-Outcome (ok k) before w h = replay_create-Outcome k before w h
  answer_create-Outcome (err e) before w h =
      Ends-weaken _ (create_new-Outcome before w h) (λ _ _ made. inl made) (λ _ _ f. f)

  -- Whatever fails on the way, `CreateOrder` does one of three things. It makes one order, with its
  -- event and its key, and answers 201; or it answers with the recorded order and changes nothing;
  -- or it fails, and the database is as it was, unless only the answer of the commit was lost and
  -- the order, its event and its key are all there.
  pub create_order-Outcome :
      (w : World)
      → Ends (CreateOutcome env p w.db) (Atomic w.db (Created env p w.db)) (create_order env p w)
  unfolding create_order
  create_order-Outcome w =
      Ends-if (create_key env p == "") _ _ w (λ _. Ends-raise _ w (inl refl))
        λ _.
          Ends-if (p.user_id == "" || leb_ℤ p.amount_cents (pos 0) || create_currency env p == "") _
            _ w (λ _. Ends-raise _ w (inl refl))
            λ _.
              Ends-bind _ _ w (Ends-attempt _ w (get_idempotency_key-KeyFound env _ _ w))
                λ r v looked. answer_create-Outcome r w.db v looked

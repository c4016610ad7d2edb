-- ===== src/Orders/Pay/Outcome.antt =====
-- How `PayOrder` ends.
use mathlib.Core.Path.{subst}
use go_order_service.Prelude.{
  ℕ, ◌≡◌, refl, ◌⊎◌, inl, inr, true, false, ◌||◌, some, arith, ◌==◌, string_eq, ◌∙◌,
}
use go_order_service.Schema.{Db, Order, Payment, IdempotencyKey}
use go_order_service.Runtime.{Result, ok, err, Env, World}
use go_order_service.Runtime.Ends.{
  Ends, Any, Atomic, Either, Ends-bind, Ends-pure, Ends-raise, Ends-if, Ends-weaken, Ends-attempt,
  Ends-count, Ends-with_tx,
}
use go_order_service.Sqlc.Orders.{find_order}
use go_order_service.Sqlc.Payments.{find_payment}
use go_order_service.Sqlc.Idempotency.{find_key}
use go_order_service.Store.Reads.{
  Same, KeyFound, get_order-OrderFound, get_payment-PaymentFound, get_idempotency_key-KeyFound,
}
use go_order_service.Orders.Create.{uuid_text, conflicts, stored_status}
use go_order_service.Orders.Pay.{
  PayOrderParams, PayOrderResult, pay_key, pay_hash, pay_order_body, replay_pay, pay_new,
  answer_pay, pay_order,
}
use go_order_service.Orders.Pay.Effects.{Charged, pay_order_body-Charged}

-- The database holds the answer to the request: its key, for the same request, the payment and the
-- order that it was made for.
pub record Recorded (env : Env) (p : PayOrderParams) (y : Payment) (o : Order) (code : ℕ) (db : Db)
    : Type 0 where
  pub key : IdempotencyKey
  pub owner : env.scan p.user_id ≡ some key.user_id
  pub found : find_key key.user_id (pay_key env p) db.idempotency_keys ≡ some key
  pub agrees : conflicts key p.method p.path (pay_hash env p) ≡ false
  pub resource : env.scan (uuid_text env key.resource_id) ≡ some y.id
  pub made : find_payment y.id db.payments ≡ some y
  pub stored : find_order y.order_id db.orders ≡ some o
  pub status : stored_status key ≡ code

-- A new payment is made, or a recorded one is returned and nothing changes.
abbrev pub PayOutcome : Env → PayOrderParams → Db → PayOrderResult → Db → Type 0
PayOutcome env p before r after =
    Charged env p before r after
    ⊎ ((after ≡ before) × Recorded env p r.payment r.order r.status_code before × (r.cached ≡ true))

module _ (env : Env) (p : PayOrderParams) where
  replay_pay-Outcome :
      (k : IdempotencyKey) (before : Db) (w : World)
      → KeyFound env p.user_id (pay_key env p) before k w.db
      → Ends (PayOutcome env p before) (Atomic before (Charged env p before)) (replay_pay env p k w)
  unfolding replay_pay
  replay_pay-Outcome k before w h =
      Ends-if (conflicts k p.method p.path (pay_hash env p)) _ _ w
        (λ _. Ends-raise _ w (inl h.unchanged))
        λ agrees.
          Ends-bind _ _ w
            (Ends-weaken _ (get_payment-PaymentFound env _ w) (λ _ _ f. f)
              (λ _ _ s. inl (s ∙ h.unchanged)))
            λ y v made.
              Ends-bind _ _ v
                (Ends-weaken _ (get_order-OrderFound env _ v) (λ _ _ f. f)
                  (λ _ _ s. inl (s ∙ made.unchanged ∙ h.unchanged)))
                λ o u found. Ends-pure _ u (
                  inr (
                    found.unchanged ∙ made.unchanged ∙ h.unchanged,
                    record {
                      key = k;
                      owner = h.scanned;
                      found = h.found;
                      agrees = agrees;
                      resource = made.scanned;
                      made = ground arith;
                      stored = ground (arith, env.scan-render y.order_id);
                      status = refl;
                    },
                    refl,
                  ))

  -- A request for which no key is found.
  pub pay_new-Outcome :
      (w : World) → Ends (Charged env p w.db) (Atomic w.db (Charged env p w.db)) (pay_new env p w)
  unfolding pay_new
  pay_new-Outcome w =
      Ends-bind _ _ w
        (Ends-with_tx env _ w λ v e.
          subst (λ db. Ends (Charged env p db) Any (pay_order_body env p v)) e
            (pay_order_body-Charged env p v))
        λ r v made. Ends-count _ _ v λ u e. Ends-pure _ u (rw e made)

  answer_pay-Outcome :
      (r : Result IdempotencyKey) (before : Db) (w : World)
      → Either (KeyFound env p.user_id (pay_key env p) before) (Same before) r w.db
      → Ends (PayOutcome env p before) (Atomic before (Charged env p before)) (answer_pay env p r w)
  unfolding answer_pay
  answer_pay-Outcome (ok k) before w h = replay_pay-Outcome k before w h
  answer_pay-Outcome (err e) before w same =
      subst (λ db. Ends (PayOutcome env p db) (Atomic db (Charged env p db)) (pay_new env p w)) same
        (Ends-weaken _ (pay_new-Outcome w) (λ _ _ made. inl made) (λ _ _ f. f))

  -- Whatever fails on the way, `PayOrder` does one of three things. It makes one payment of an
  -- unsettled order that the caller may pay, moves the order to the status that fits the outcome,
  -- and writes the event and the key; or it answers with the recorded payment and changes nothing;
  -- or it fails, and the database is as it was, unless only the answer of the commit was lost and
  -- all of the payment's writes are there.
  pub pay_order-Outcome :
      (w : World)
      → Ends (PayOutcome env p w.db) (Atomic w.db (Charged env p w.db)) (pay_order env p w)
  unfolding pay_order
  pay_order-Outcome w =
      Ends-if (p.user_id == "" || p.order_id == "") _ _ w (λ _. Ends-raise _ w (inl refl))
        λ _.
          Ends-if (pay_key env p == "") _ _ w (λ _. Ends-raise _ w (inl refl))
            λ _.
              Ends-bind _ _ w (Ends-attempt _ w (get_idempotency_key-KeyFound env _ _ w))
                λ r v looked. answer_pay-Outcome r w.db v looked

-- ===== src/Orders/Create/Progress.antt =====
-- `CreateOrder` while nothing outside fails.
use mathlib.Core.Path.{subst}
use go_order_service.Prelude.{
  ℕ, String, ◌≡◌, refl, sym, inl, inr, true, false, ◌||◌, none, some, arith, ◌==◌, nat_eq,
  string_eq,
}
use go_order_service.Prelude.Int.{pos, leb_ℤ}
use go_order_service.Prelude.Lists.{contains}
use go_order_service.Prelude.Strings.{has_nul}
use go_order_service.Prelude.{◌||◌}
use go_order_service.Schema.{Db, IdempotencyKey}
use go_order_service.Runtime.{Result, ok, err, Env, World, query, scan_uuid, ◌>>=◌}
use go_order_service.Runtime.Ends.{
  Ends, Either, Ends-bind, Ends-attempt, Ends-pure, Ends-if, Ends-count, Atomic,
}
use go_order_service.Runtime.Reachable.{Reachable, Unused, Never, new_uuid-fresh, with_tx-Never}
use go_order_service.Sqlc.Idempotency as KeyQueries
use go_order_service.Sqlc.Idempotency.{find_key}
use go_order_service.Store.Idempotency as KeyStore
use go_order_service.Store.Progress.{
  create_order-Never, create_outbox_event-Never, create_idempotency_key-Never,
}
use go_order_service.Orders.Create.{
  CreateOrderParams, CreateOrderResult, create_key, create_currency, create_description,
  create_order_body, create_new, answer_create, create_order,
}
use go_order_service.Orders.Create.Effects.{Created}
use go_order_service.Orders.Create.Outcome.{Admissible, CreateOutcome, create_order-Outcome}

-- The user of the request is registered, and has not used its key; the texts can be stored.
pub record First (env : Env) (p : CreateOrderParams) (db : Db) : Type 0 where
  pub user : ℕ
  pub owner : env.scan p.user_id ≡ some user
  pub registered : contains (λ u. u.id == user) db.users ≡ true
  pub unused_key : find_key user (create_key env p) db.idempotency_keys ≡ none
  pub plain_order : (has_nul (create_currency env p) || has_nul (create_description env p)) ≡ false
  pub plain_key : (has_nul (create_key env p) || has_nul p.method || has_nul p.path) ≡ false

module _ (env : Env) (good : Reachable env) (p : CreateOrderParams) (ready : Admissible env p) where
  positive : leb_ℤ p.amount_cents (pos 0) ≡ false
  positive = ground (arith, ready.complete)

  rendered : (text : String) (u : ℕ) → text ≡ env.render u → env.scan text ≡ some u
  rendered text u given = rw given (env.scan-render u)

  create_order_body-Never :
      (w : World)
      → Unused env w.db
      → First env p w.db
      → Ends (λ _ _. Unit) Never (create_order_body env p w)
  unfolding create_order_body
  create_order_body-Never w unused first =
      Ends-bind _ _ w (new_uuid-fresh env w) λ t₁ w₁ ((i, given₁), same₁).
        Ends-bind _ _ w₁
          (create_order-Never env good _ (env.fresh i) first.user w₁ (rendered t₁ _ given₁)
            first.owner first.plain_order positive (rw same₁ (unused.orders i))
            (rw same₁ first.registered))
          λ o w₂ ordered. Ends-bind _ _ w₂ (new_uuid-fresh env w₂) λ t₂ w₃ ((j, given₂), same₃).
            Ends-bind _ _ w₃
              (create_outbox_event-Never env good _ (env.fresh j) o.id o.id w₃
                (rendered t₂ _ given₂) (env.scan-render o.id) (env.scan-render o.id) refl
                (rw (same₃, ordered, same₁) (unused.events j)))
              λ e w₄ announced.
                Ends-bind _ _ w₄ (new_uuid-fresh env w₄) λ t₃ w₅ ((k, given₃), same₅).
                  Ends-bind _ _ w₅
                    (create_idempotency_key-Never env good _ (env.fresh k) first.user o.id w₅
                      (rendered t₃ _ given₃) first.owner (env.scan-render o.id) first.plain_key
                      (rw (same₅, announced, same₃, ordered, same₁) (unused.keys k))
                      (rw (same₅, announced, same₃, ordered, same₁) first.unused_key)
                      (rw (same₅, announced, same₃, ordered, same₁) first.registered))
                    λ _ u _. Ends-pure _ u tt

  create_new-Never :
      (w : World)
      → Unused env w.db
      → First env p w.db
      → Ends (λ r _. r.cached ≡ false) Never (create_new env p w)
  unfolding create_new
  create_new-Never w unused first =
      Ends-bind _ _ w
        (with_tx-Never env good _ w λ v same.
          create_order_body-Never v (subst (Unused env) (sym same) unused)
            (subst (First env p) (sym same) first))
        λ o v _. Ends-count _ _ v λ u _. Ends-pure _ u refl

  looks_up :
      (w : World)
      → First env p w.db
      → Ends
          (λ _ _. ⊥)
          (λ _ db. db ≡ w.db)
          (KeyStore.get_idempotency_key env p.user_id (create_key env p) w)
  unfolding KeyStore.get_idempotency_key query scan_uuid ◌>>=◌ KeyQueries.get_idempotency_key
  looks_up w first = ground (arith, first.owner, first.unused_key)

  answer_create-Never :
      (r : Result IdempotencyKey) (before : Db) (w : World)
      → Either (λ _ _. ⊥) (λ _ db. db ≡ before) r w.db
      → Unused env before
      → First env p before
      → Ends (λ r _. r.cached ≡ false) Never (answer_create env p r w)
  unfolding answer_create
  answer_create-Never (ok k) before w h unused first = absurd h
  answer_create-Never (err e) before w same unused first =
      create_new-Never w (subst (Unused env) (sym same) unused)
        (subst (First env p) (sym same) first)

  create_order-First-Never :
      (w : World)
      → Unused env w.db
      → First env p w.db
      → Ends (λ r _. r.cached ≡ false) Never (create_order env p w)
  unfolding create_order
  create_order-First-Never w unused first =
      Ends-if (create_key env p == "") _ _ w (λ missing. absurd (ground (arith, ready.keyed)))
        λ _.
          Ends-if (p.user_id == "" || leb_ℤ p.amount_cents (pos 0) || create_currency env p == "") _
            _ w (λ missing. absurd (ground (arith, ready.complete)))
            λ _.
              Ends-bind _ _ w (Ends-attempt _ w (looks_up w first))
                λ r v h. answer_create-Never r w.db v h unused first

  made :
      (before : Db) (x : Result CreateOrderResult × World)
      → Ends (λ r _. r.cached ≡ false) Never x
      → Ends (CreateOutcome env p before) (Atomic before (Created env p before)) x
      → (r : CreateOrderResult) × (x.0 ≡ ok r)
        × (r.status_code ≡ 201)
        × Created env p before r.order x.1.db
  made before (ok r, w) fresh h = let (code, c) = new h.as_stated in (r, refl, code, c)
    where
      new :
          CreateOutcome env p before r w.db
          → (r.status_code ≡ 201) × Created env p before r.order w.db
      new (inl (c, code, _)) = (code, c)
      new (inr (_, _, cached)) = absurd (ground (arith, fresh.as_stated))
  made before (err e, w) never h = absurd never.as_stated

  -- The first request of a registered user with a key, if it is complete, gets a new order, with its
  -- event and its key in the database, and the status 201, while nothing outside fails and `uuid.New`
  -- gives no id that is in use, if no text of it has U+0000.
  pub create_order-First :
      (w : World)
      → Unused env w.db
      → First env p w.db
      → (r : CreateOrderResult) × ((create_order env p w).0 ≡ ok r)
        × (r.status_code ≡ 201)
        × Created env p w.db r.order (create_order env p w).1.db
  create_order-First w unused first =
      made w.db (create_order env p w) (create_order-First-Never w unused first)
        (create_order-Outcome env p w)

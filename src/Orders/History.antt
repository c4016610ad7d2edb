-- ===== src/Orders/History.antt =====
-- Calls of the order service one after another, whatever fails on the way.
use mathlib.Core.Path.{subst}
use go_order_service.Prelude.{sym, inl, inr, List, [], ◌∷◌}
use go_order_service.Schema.{Db, Order}
use go_order_service.Runtime.{Env, World}
use go_order_service.Runtime.Ends.{Ends-always, Atomic-always}
use go_order_service.Orders.Create.{CreateOrderParams, CreateOrderResult, create_order}
use go_order_service.Orders.Create.Effects.{Created}
use go_order_service.Orders.Create.Outcome.{CreateOutcome, create_order-Outcome}
use go_order_service.Orders.Pay.{PayOrderParams, PayOrderResult, pay_order}
use go_order_service.Orders.Pay.Effects.{Charged}
use go_order_service.Orders.Pay.Outcome.{PayOutcome, pay_order-Outcome}
use go_order_service.Orders.Cancel.{CancelOrderParams, cancel_order}
use go_order_service.Orders.Cancel.Effects.{Withdrawn}
use go_order_service.Orders.Cancel.Outcome.{cancel_order-Outcome}
use go_order_service.Orders.Ledger.{IsLedger}
use go_order_service.Orders.Ledger.Writes.{Created-IsLedger, Charged-IsLedger, Withdrawn-IsLedger}

pub data Call : Type 0 where
  create : CreateOrderParams → Call
  pay : PayOrderParams → Call
  cancel : CancelOrderParams → Call

-- What a call leaves behind; its answer goes to its caller.
unfoldable pub call : Env → Call → World → World
call env (create p) w = (create_order env p w).1
call env (pay p) w = (pay_order env p w).1
call env (cancel p) w = (cancel_order env p w).1

unfoldable pub run : Env → List Call → World → World
unfolding call
run env [] w = w
run env (c ∷ cs) w = run env cs (call env c w)

-- A property of the database that holds before a call and after each of its possible writes.
pub record Holds (env : Env) (I : Db → Type 0) : Type 0 where
  pub created :
      (p : CreateOrderParams) (o : Order) (before after : Db)
      → Created env p before o after
      → I before
      → I after
  pub charged :
      (p : PayOrderParams) (r : PayOrderResult) (before after : Db)
      → Charged env p before r after
      → I before
      → I after
  pub withdrawn :
      (p : CancelOrderParams) (o : Order) (before after : Db)
      → Withdrawn env p before o after
      → I before
      → I after

module _ (env : Env) {I : Db → Type 0} (holds : Holds env I) where
  CreateOutcome-keeps :
      (p : CreateOrderParams) (before : Db) (r : CreateOrderResult) (after : Db)
      → I before
      → CreateOutcome env p before r after
      → I after
  CreateOutcome-keeps p before r after i (inl (made, _, _)) =
      holds.created p r.order before after made i
  CreateOutcome-keeps p before r after i (inr (same, _, _)) = subst I (sym same) i

  PayOutcome-keeps :
      (p : PayOrderParams) (before : Db) (r : PayOrderResult) (after : Db)
      → I before
      → PayOutcome env p before r after
      → I after
  PayOutcome-keeps p before r after i (inl made) = holds.charged p r before after made i
  PayOutcome-keeps p before r after i (inr (same, _, _)) = subst I (sym same) i

  pub call-keeps : (c : Call) (w : World) → I w.db → I (call env c w).db
  unfolding call
  call-keeps (create p) w i =
      Ends-always I _ (create_order-Outcome env p w) (λ r db h. CreateOutcome-keeps p w.db r db i h)
        (Atomic-always I i λ o db made. holds.created p o w.db db made i)
  call-keeps (pay p) w i =
      Ends-always I _ (pay_order-Outcome env p w) (λ r db h. PayOutcome-keeps p w.db r db i h)
        (Atomic-always I i λ r db made. holds.charged p r w.db db made i)
  call-keeps (cancel p) w i =
      Ends-always I _ (cancel_order-Outcome env p w)
        (λ o db made. holds.withdrawn p o w.db db made i)
        (Atomic-always I i λ o db made. holds.withdrawn p o w.db db made i)

  pub run-keeps : (cs : List Call) (w : World) → I w.db → I (run env cs w).db
  unfolding run
  run-keeps [] w i = i
  run-keeps (c ∷ cs) w i = run-keeps cs (call env c w) (call-keeps c w i)

-- After any calls, failing or not, every order is paid by exactly one successful payment if its
-- status is paid and by none otherwise; the outbox holds one event for its creation, one for each of
-- its payments by outcome, and one for its cancellation exactly if it is cancelled, if all that was
-- so before.
pub run-IsLedger :
    (env : Env) (cs : List Call) (w : World) → IsLedger w.db → IsLedger (run env cs w).db
run-IsLedger env cs w =
    run-keeps env
      (record {
        created = Created-IsLedger env;
        charged = Charged-IsLedger env;
        withdrawn = Withdrawn-IsLedger env;
      })
      cs w

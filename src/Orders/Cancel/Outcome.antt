-- ===== src/Orders/Cancel/Outcome.antt =====
-- How `CancelOrder` ends.
use mathlib.Core.Path.{subst}
use go_order_service.Prelude.{refl, inl, ◌||◌, ◌==◌, string_eq}
use go_order_service.Runtime.{Env, World}
use go_order_service.Runtime.Ends.{Ends, Any, Atomic, Ends-raise, Ends-if, Ends-with_tx}
use go_order_service.Orders.Cancel.{CancelOrderParams, cancel_order_body, cancel_order}
use go_order_service.Orders.Cancel.Effects.{Withdrawn, cancel_order_body-Withdrawn}

-- `CancelOrder` cancels an unsettled order that the caller may cancel, with the event that announces
-- it, or it fails, and the database is as it was, unless only the answer of the commit was lost.
pub cancel_order-Outcome :
    (env : Env) (p : CancelOrderParams) (w : World)
    → Ends (Withdrawn env p w.db) (Atomic w.db (Withdrawn env p w.db)) (cancel_order env p w)
unfolding cancel_order
cancel_order-Outcome env p w =
    Ends-if (p.user_id == "" || p.order_id == "") _ _ w (λ _. Ends-raise _ w (inl refl))
      λ _. Ends-with_tx env _ w λ v e.
        subst (λ db. Ends (Withdrawn env p db) Any (cancel_order_body env p v)) e
          (cancel_order_body-Withdrawn env p v)

-- ===== src/Consumer/Errors.antt =====
-- Which errors say that a message is invalid.
use go_order_service.Prelude.{◌≡◌, refl, ◌↔◌, Bool, true, false, Option, none, some, arith}
use go_order_service.Encoding.{Bytes}
use go_order_service.Schema.{ProcessedEvent}
use go_order_service.Runtime.{
  Error, invalid_message, no_rows, Result, ok, err, Env, World, ◌>>=◌, query, scan_uuid,
}
use go_order_service.Runtime.Failures.{with_tx_errors}
use go_order_service.Runtime.Ends.{
  Ends, Either, Ends-bind, Ends-attempt, Ends-pure, Ends-new_uuid, Ends-weaken,
}
use go_order_service.Sqlc.Consumption as ConsumptionQueries
use go_order_service.Store.Consumption as ConsumptionStore
use go_order_service.Consumer.{
  Notice, consumer_name, validate, handle, process, process_body, deliver, answer, count_event,
}

abbrev is_invalid : Error → Bool
is_invalid invalid_message = true
is_invalid _ = false

-- An action whose errors are not that one.
abbrev Other : {A : Type 0} → Result A × World → Type 0
Other r = Ends (λ _ _. Unit) (λ e _. is_invalid e ≡ false) r

module _ (env : Env) where
  insert-Other :
      (p : ConsumptionStore.CreateNotificationDeliveryParams) (w : World)
      → Other (ConsumptionStore.create_notification_delivery env p w)
  unfolding ConsumptionStore.create_notification_delivery ◌>>=◌ scan_uuid query
      ConsumptionQueries.create_notification_delivery
  insert-Other p w = ground arith

  mark-Other :
      (n : Notice) (w : World)
      → Other (ConsumptionStore.try_create_processed_event env n.event_id consumer_name w)
  unfolding ConsumptionStore.try_create_processed_event ◌>>=◌ scan_uuid query
      ConsumptionQueries.try_create_processed_event
  mark-Other n w = ground arith

  deliver-Other :
      (n : Notice) (r : Result ProcessedEvent) (w : World)
      → Either (λ _ _. Unit) (λ e _. is_invalid e ≡ false) r w.db
      → Other (deliver env n r w)
  deliver-Other n (ok e) w h =
      Ends-bind _ _ w (Ends-weaken _ (Ends-new_uuid env w) (λ _ _ _. tt) (λ _ _ x. x))
        λ id v _. Ends-bind _ _ v (insert-Other _ v) λ d u _. Ends-pure _ u tt
  deliver-Other n (err no_rows) w h = Ends-pure _ w tt
  deliver-Other n (err x) w h = record { as_stated = h }

  process-Other : (n : Notice) (w : World) → Other (process env n w)
  unfolding process process_body
  process-Other n w =
      Ends-bind _ _ w
        (with_tx_errors (λ e. is_invalid e ≡ false) refl refl env _ w
          λ v. Ends-bind _ _ v (Ends-attempt _ v (mark-Other n v)) λ r u h. deliver-Other n r u h)
        λ b v _. counted n b v
    where
      counted : (n : Notice) (b : Bool) (v : World) → Other (count_event env n b v)
      counted n true v = Ends-pure _ _ tt
      counted n false v = Ends-pure _ _ tt

  answer-invalid :
      (o : Option Notice) (w : World) → (answer env o w).0 ≡ err invalid_message → o ≡ none
  answer-invalid none w h = refl
  answer-invalid (some n) w h = absurd (impossible (process env n w) (process-Other n w) h)
    where
      impossible : (r : Result Unit × World) → Other r → r.0 ≡ err invalid_message → ⊥
      impossible (ok u, v) k e = cc
      impossible (err x, v) k e = ground (arith, k.as_stated)

  -- `Handle` returns `ErrInvalidMessage` for the messages that its tests refuse, and for no failure
  -- of the database.
  pub handle-invalid :
      (payload : Bytes) (w : World)
      → ((handle env payload w).0 ≡ err invalid_message) ↔ (validate env payload ≡ none)
  unfolding handle
  handle-invalid payload w = (answer-invalid (validate env payload) w, λ h. rw h refl)

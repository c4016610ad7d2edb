-- ===== src/Consumer/Loop/Offsets.antt =====
-- The offsets that `Consumer.Run` commits, and the effects of their records.
use mathlib.Core.Path.{subst}
use go_order_service.Prelude.{
  ℕ, String, ◌≡◌, refl, sym, ◌⊎◌, inl, inr, Bool, true, false, Option, none, some, List, [], ◌∷◌,
  arith, if◌then◌else◌, ◌==◌, string_eq,
}
use go_order_service.Prelude.Lists.{All, All-map}
use go_order_service.Encoding.{Bytes}
use go_order_service.Schema.{Db}
use go_order_service.Runtime.{
  Error, invalid_message, bad_uuid, Result, ok, err, Env, World, ◌>>=◌, attempt, scan_uuid, with_tx,
  tick,
}
use go_order_service.Runtime.Ends.{Ends, Atomic, Ends-always, Atomic-always, Ends-weaken}
use go_order_service.Store.Consumption as ConsumptionStore
use go_order_service.Consumer.{
  Notice, validate, handle, handle_record, discard, process, process_body,
}
use go_order_service.Consumer.Deliveries.{
  is_processed, Settled, HandleOutcome, Rejected, handle-Outcome,
}
use go_order_service.Consumer.Inbox.{
  IsInbox, Settled-is_processed, handle_record-IsInbox, handle_record-db,
}
use go_order_service.Consumer.Errors.{handle-invalid}
use go_order_service.Consumer.Loop.{
  Record, Event, nothing, message, failure, other, Turn, Session, Verdict, commit_record,
  conclude_record, proceed, take_event, turn, poll_loop, subscribed, run,
}

-- The message is invalid, or its event is processed.
abbrev pub Effective : Env → Bytes → Db → Type 0
Effective env value db =
    (validate env value ≡ none)
    ⊎ ((n : Notice) × (id : ℕ) × (validate env value ≡ some n)
        × (env.scan n.event_id ≡ some id)
        × (is_processed id db ≡ true))

-- No event is forgotten.
abbrev Keeps : Db → Db → Type 0
Keeps before after = (id : ℕ) → is_processed id before ≡ true → is_processed id after ≡ true

module _ (env : Env) where
  Settled-Keeps : (n : Notice) (before after : Db) → Settled env n before after → Keeps before after
  Settled-Keeps n before after (inl d) id h = rw d.stores (ground (arith, h))
  Settled-Keeps n before after (inr r) id h =
      subst (λ db. is_processed id db ≡ true) (sym r.unchanged) h

  same-Keeps : (before after : Db) → after ≡ before → Keeps before after
  same-Keeps before after same id h = subst (λ db. is_processed id db ≡ true) (sym same) h

  handle-Keeps : (value : Bytes) (w : World) → Keeps w.db (handle env value w).1.db
  handle-Keeps value w =
      Ends-always (Keeps w.db) _ (handle-Outcome env value w)
        (λ _ db (n, _, s). Settled-Keeps n w.db db s) failed
    where
      kept : (u : Unit {0}) (after : Db) → HandleOutcome env value w.db after → Keeps w.db after
      kept u after (n, _, s) = Settled-Keeps n w.db after s

      failed :
          (e : Error) (db : Db)
          → Rejected env value w.db e db
            ⊎ Atomic {A = Unit} w.db (λ _ after. HandleOutcome env value w.db after) e db
          → Keeps w.db db
      failed e db (inl (_, _, same)) = same-Keeps w.db db same
      failed e db (inr h) = Atomic-always (Keeps w.db) (λ id there. there) kept e db h

  Effective-Keeps :
      (value : Bytes) (before after : Db)
      → Keeps before after
      → Effective env value before
      → Effective env value after
  Effective-Keeps value before after k (inl invalid) = inl invalid
  Effective-Keeps value before after k (inr (n, id, valid, scanned, there)) =
      inr (n, id, valid, scanned, k id there)

  -- A record that is handled without an error is invalid, or its event is processed.
  discarded :
      (value : Bytes) (before : Db) (r : Result Unit × World)
      → Ends (λ _ after. HandleOutcome env value before after) (λ _ _. Unit) r
      → (r.0 ≡ err invalid_message → validate env value ≡ none)
      → (discard env r.0 r.1).0 ≡ ok tt
      → Effective env value r.1.db
  discarded value before (ok u, w) h invalid e =
      let (n, valid, s) = h.as_stated in
      let (id, scanned, there) = Settled-is_processed env n before w.db s in
      inr (n, id, valid, scanned, there)
  discarded value before (err invalid_message, w) h invalid e = inl (invalid refl)
  discarded value before (err x, w) h invalid e = absurd (err_ne_ok e)
    where
      err_ne_ok : {x : Error} → err x ≡ ok tt → ⊥
      err_ne_ok e = cc

  handle_record-Effective :
      (value : Bytes) (w : World)
      → (handle_record env value w).0 ≡ ok tt
      → Effective env value (handle_record env value w).1.db
  unfolding handle_record ◌>>=◌ attempt
  handle_record-Effective value w e =
      subst (Effective env value) (sym (handle_record-db env value w)) (
        discarded value w.db (handle env value w)
          (Ends-weaken _ (handle-Outcome env value w) (λ _ _ h. h) (λ _ _ _. tt))
          (handle-invalid env value w).0 e)

  handle_record-Keeps : (value : Bytes) (w : World) → Keeps w.db (handle_record env value w).1.db
  handle_record-Keeps value w id h =
      subst (λ db. is_processed id db ≡ true) (sym (handle_record-db env value w))
        (handle-Keeps value w id h)

-- Every committed record has had its effect, and each event is delivered once at most.
pub record IsSafe (env : Env) (s : Session) : Type 0 where
  pub effective : All (λ r. Effective env r.value s.world.db) s.committed
  pub inbox : IsInbox s.world.db

module _ (env : Env) where
  if-IsSafe :
      (b : Bool) (x y : Verdict × Session)
      → IsSafe env x.1
      → IsSafe env y.1
      → IsSafe env (if b then x else y).1
  if-IsSafe true x y h k = h
  if-IsSafe false x y h k = k

  proceed-IsSafe :
      (x : Verdict × Session) (k : Session → Verdict × Session)
      → IsSafe env x.1
      → ((s : Session) → IsSafe env s → IsSafe env (k s).1)
      → IsSafe env (proceed x k).1
  proceed-IsSafe (none, s) k h keeps = keeps s h
  proceed-IsSafe (some r, s) k h keeps = h

  commit_record-IsSafe :
      (r : Record) (c : Option String) (s : Session)
      → Effective env r.value s.world.db
      → IsSafe env s
      → IsSafe env (commit_record r c s).1
  commit_record-IsSafe r none s e h = record { effective = (e, h.effective); inbox = h.inbox }
  commit_record-IsSafe r (some text) s e h = h

  handled-IsSafe :
      (r : Record) (s : Session)
      → IsSafe env s
      → IsSafe env (record s { world = (handle_record env r.value s.world).1 })
  handled-IsSafe r s h = record {
    effective =
        All-map s.committed
          (λ c e.
            Effective-Keeps env c.value s.world.db (handle_record env r.value s.world).1.db
              (handle_record-Keeps env r.value s.world) e)
          h.effective;
    inbox = handle_record-IsInbox env r.value s.world h.inbox;
  }

  conclude_record-IsSafe :
      (r : Record) (t : Turn) (x : Result Unit × World) (s : Session)
      → (x.0 ≡ ok tt → Effective env r.value x.1.db)
      → IsSafe env (record s { world = x.1 })
      → IsSafe env (conclude_record r t x s).1
  conclude_record-IsSafe r t (ok tt, w) s e h =
      if-IsSafe t.stopped_after _ _ h
        (commit_record-IsSafe r t.commit (record s { world = w }) (e refl) h)
  conclude_record-IsSafe r t (err x, w) s e h = if-IsSafe t.stopped_after _ _ h h

  take_event-IsSafe :
      (t : Turn) (e : Event) (s : Session) → IsSafe env s → IsSafe env (take_event env t e s).1
  take_event-IsSafe t nothing s h = h
  take_event-IsSafe t other s h = h
  take_event-IsSafe t (failure fatal text) s h = h
  take_event-IsSafe t (message r) s h =
      conclude_record-IsSafe r t (handle_record env r.value s.world) s
        (handle_record-Effective env r.value s.world) (handled-IsSafe r s h)

  turn-IsSafe : (t : Turn) (s : Session) → IsSafe env s → IsSafe env (turn env t s).1
  unfolding turn
  turn-IsSafe t s h = if-IsSafe t.stopped _ _ h (take_event-IsSafe t t.event s h)

  poll_loop-IsSafe :
      (ts : List Turn) (s : Session) → IsSafe env s → IsSafe env (poll_loop env ts s).1
  unfolding poll_loop
  poll_loop-IsSafe [] s h = h
  poll_loop-IsSafe (t ∷ ts) s h =
      proceed-IsSafe (turn env t s) (poll_loop env ts) (turn-IsSafe t s h) (poll_loop-IsSafe ts)

  -- Over any turns of the loop, with any failures and redeliveries: an offset is committed only for
  -- a message that is invalid or whose event is processed, and each event has one delivery if it is
  -- processed and none otherwise.
  pub run-IsSafe :
      (topic : String) (refusal : Option String) (ts : List Turn) (s : Session)
      → IsSafe env s
      → IsSafe env (run env topic refusal ts s).1
  unfolding run
  run-IsSafe topic refusal ts s h = if-IsSafe (topic == "") _ _ h (polled refusal)
    where
      polled : (refused : Option String) → IsSafe env (subscribed env refused ts s).1
      polled none = poll_loop-IsSafe ts s h
      polled (some text) = h

  -- A message whose tests pass, but whose event id is no UUID for the database, is not discarded: its
  -- handling fails, each time.
  pub handle_record_stuck :
      (value : Bytes) (n : Notice) (w : World)
      → env.fault w.ticks ≡ false
      → validate env value ≡ some n
      → env.scan n.event_id ≡ none
      → handle_record env value w ≡ (err bad_uuid, record (tick w) { tx = none })
  unfolding handle_record handle process process_body ◌>>=◌ attempt scan_uuid with_tx
      ConsumptionStore.try_create_processed_event
  handle_record_stuck value n w f valid refused = ground arith

  -- A message whose tests pass, but whose event id is no UUID for the database, is not discarded: when
  -- the loop comes to it while the database can be reached, its handling fails, its offset is not
  -- committed, and the consumer ends, by the error if the context goes on.
  pub poll_loop_stuck :
      (r : Record) (n : Notice) (t : Turn) (ts : List Turn) (s : Session)
      → t.stopped ≡ false
      → t.event ≡ message r
      → env.fault s.world.ticks ≡ false
      → validate env r.value ≡ some n
      → env.scan n.event_id ≡ none
      → poll_loop env (t ∷ ts) s ≡ (
        some (if t.stopped_after then ok tt else err bad_uuid),
        record s { world = record (tick s.world) { tx = none } },
      )
  unfolding poll_loop turn
  poll_loop_stuck r n t ts s going polled f valid refused =
      rw (going, polled, handle_record_stuck r.value n s.world f valid refused)
        (stopped_or_failed t.stopped_after)
    where
      stopped_or_failed :
          (b : Bool)
          → proceed
              (if b
                then (some (ok tt), record s { world = record (tick s.world) { tx = none } })
                else (
                  some (err bad_uuid),
                  record s { world = record (tick s.world) { tx = none } },
                ))
              (poll_loop env ts)
            ≡ (
              some (if b then ok tt else err bad_uuid),
              record s { world = record (tick s.world) { tx = none } },
            )
      stopped_or_failed true = refl
      stopped_or_failed false = refl

-- ===== src/Consumer/Loop.antt =====
-- internal/kafka/consumer.go: `Consumer.Run`, with the record handler of cmd/consumer/main.go. What
-- the Kafka client and the context return in each turn of the loop is the input.
pub mod Offsets
use go_order_service.Prelude.{
  String, Bool, true, false, Option, none, some, List, [], ◌∷◌, if◌then◌else◌, ◌==◌, string_eq,
}
use go_order_service.Prelude.Int.{ℤ}
use go_order_service.Encoding.{Bytes}
use go_order_service.Runtime.{Error, kafka_error, Result, ok, err, Env, World}
use go_order_service.Consumer.{handle_record}

pub record Record : Type 0 where
  pub topic : String
  pub partition : ℤ
  pub offset : ℤ
  pub key : Bytes
  pub value : Bytes

-- What `Poll` returns: nothing in time, a message, an error that is fatal or is not, or an event of
-- another type.
pub data Event : Type 0 where
  nothing : Event
  message : Record → Event
  failure : Bool → String → Event
  other : Event

-- One turn: whether the context has ended at its start, what is polled, whether the context has
-- ended after that was handled, and the error of `CommitMessage`, if there is one.
pub record Turn : Type 0 where
  pub stopped : Bool
  pub event : Event
  pub stopped_after : Bool
  pub commit : Option String

-- The state of the process and the records whose offsets are committed, the latest first.
pub record Session : Type 0 where
  pub world : World
  pub committed : List Record

-- `none` while the loop goes on, or what `Run` returns.
abbrev pub Verdict : Type 0
Verdict = Option (Result Unit)

abbrev pub commit_record : Record → Option String → Session → Verdict × Session
commit_record r none s = (none, record s { committed = r ∷ s.committed })
commit_record r (some text) s = (some (err (kafka_error text)), s)

-- After the handler.
abbrev pub conclude_record : Record → Turn → Result Unit × World → Session → Verdict × Session
conclude_record r t (ok _, w) s =
    if t.stopped_after
    then (some (ok tt), record s { world = w })
    else commit_record r t.commit (record s { world = w })
conclude_record r t (err e, w) s =
    if t.stopped_after
    then (some (ok tt), record s { world = w })
    else (some (err e), record s { world = w })

abbrev pub conclude_failure : Bool → String → Turn → Verdict
conclude_failure fatal text t =
    if t.stopped_after then some (ok tt) else if fatal then some (err (kafka_error text)) else none

abbrev pub proceed : Verdict × Session → (Session → Verdict × Session) → Verdict × Session
proceed (none, s) k = k s
proceed (some r, s) k = (some r, s)

module _ (env : Env) where
  abbrev pub take_event : Turn → Event → Session → Verdict × Session
  take_event t nothing s = (none, s)
  take_event t other s = (none, s)
  take_event t (failure fatal text) s = (conclude_failure fatal text t, s)
  take_event t (message r) s = conclude_record r t (handle_record env r.value s.world) s

  -- One turn of the loop.
  unfoldable pub turn : Turn → Session → Verdict × Session
  turn t s = if t.stopped then (some (ok tt), s) else take_event t t.event s

  unfoldable pub poll_loop : List Turn → Session → Verdict × Session
  poll_loop [] s = (none, s)
  poll_loop (t ∷ ts) s = proceed (turn t s) (poll_loop ts)

  abbrev pub subscribed : Option String → List Turn → Session → Verdict × Session
  subscribed (some text) ts s = (some (err (kafka_error text)), s)
  subscribed none ts s = poll_loop ts s

  -- `Run`, by the error of `SubscribeTopics` and what happens in each turn.
  unfoldable pub run : String → Option String → List Turn → Session → Verdict × Session
  run topic refusal ts s =
      if topic == ""
      then (some (err (kafka_error "kafka topic must not be empty")), s)
      else subscribed refusal ts s

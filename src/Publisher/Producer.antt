-- ===== src/Publisher/Producer.antt =====
-- internal/kafka/producer.go: `NewProducer`, `CheckTopic` and `Close`, and how cmd/publisher/main.go
-- tries to connect with them. What the Kafka client returns is the input; an error is its text.
use go_order_service.Prelude.{
  ℕ, String, Bool, false, Option, none, some, List, [], ◌∷◌, if◌then◌else◌, ◌==◌, string_eq, nat_eq,
  ltb, ◌≡◌, ◌≤◌, refl, ◌⊎◌, inl, inr, arith, not,
}
use go_order_service.Prelude.Int.{ℤ, pos, leb_ℤ}
use go_order_service.AppStart.{Returned, Attempt, connected, failed, retry}
use go_order_service.AppStart.Attempts.{EndsAt, succeeds, exhausts, stops, retry-Tried}

-- A topic in the metadata: the code of its error, where zero is `ErrNoError`, and its partitions.
pub record TopicMetadata : Type 0 where
  pub error_code : ℕ
  pub partitions : ℕ

pub record Metadata : Type 0 where
  pub brokers : ℕ
  pub topics : List (String × TopicMetadata)

-- The answer of `GetMetadata`.
pub data Answer : Type 0 where
  metadata : Metadata → Answer
  no_metadata : String → Answer

abbrev pub topic_of : String → List (String × TopicMetadata) → Option TopicMetadata
topic_of topic [] = none
topic_of topic ((name, t) ∷ ts) =
    let rest = topic_of topic ts in if name == topic then some t else rest

-- The tests on the topic's own metadata.
abbrev pub check_partitions : Option TopicMetadata → Option String
check_partitions none = some "kafka topic not found in metadata"
check_partitions (some t) =
    if not (t.error_code == 0)
    then some "kafka topic metadata error"
    else (if t.partitions == 0 then some "kafka topic contains no partitions" else none)

-- After `GetMetadata`: the error of the context, if it is over by then, comes first.
abbrev pub check_metadata : String → Option String → Answer → Option String
check_metadata topic _ (no_metadata text) = some text
check_metadata topic (some text) (metadata m) = some text
check_metadata topic none (metadata m) =
    if m.brokers == 0
    then some "kafka metadata contains no brokers"
    else check_partitions (topic_of topic m.topics)

-- `CheckTopic`, by the errors of the context before and after the question: `none`, or an error.
abbrev pub ask : String → Option String → Option String → Answer → Option String
ask topic (some text) later answer = some text
ask topic none later answer = check_metadata topic later answer

unfoldable pub check_topic : String → ℤ → Option String → Option String → Answer → Option String
check_topic topic timeout before later answer =
    if topic == ""
    then some "kafka topic must not be empty"
    else if leb_ℤ timeout (pos 0)
    then some "kafka metadata timeout must be positive"
    else ask topic before later answer

-- `NewProducer`, by the error of the client.
unfoldable pub new_producer : String → Option String → Option String
new_producer bootstrap_servers refusal =
    if bootstrap_servers == "" then some "kafka bootstrap servers must not be empty" else refusal

-- `Close`, by the number of messages that `Flush` leaves.
unfoldable pub close : ℕ → Option String
close remaining =
    if ltb 0 remaining then some "close kafka producer with undelivered messages" else none

-- What `main` tries with `appstart.Retry`. A producer whose topic is not there is closed.
pub record Connection : Type 0 where
  pub refusal : Option String
  pub before : Option String
  pub later : Option String
  pub answer : Answer

abbrev pub checked : Option String → Attempt Unit String
checked none = connected tt
checked (some text) = failed text

abbrev pub created : String → Connection → Option String → Attempt Unit String
created topic c (some text) = failed text
created topic c none = checked (check_topic topic (pos 5000000000) c.before c.later c.answer)

unfoldable pub connect : String → String → Connection → Attempt Unit String
connect bootstrap_servers topic c = created topic c (new_producer bootstrap_servers c.refusal)

-- The connection to Kafka in `main`: twelve attempts at most.
unfoldable pub start :
    String → String → (ℕ → Connection) → (ℕ → Bool) → String → Returned Unit String
start bootstrap_servers topic connections done ctx_err =
    retry (λ i. connect bootstrap_servers topic (connections i)) done ctx_err 12

-- The servers and the topic are named, and the metadata that is got in time has a broker and the
-- topic, without an error and with a partition.
pub record Usable (bootstrap_servers topic : String) (c : Connection) : Type 0 where
  pub servers : (bootstrap_servers == "") ≡ false
  pub named : (topic == "") ≡ false
  pub client : c.refusal ≡ none
  pub in_time : (c.before ≡ none) × (c.later ≡ none)
  pub got : Metadata
  pub answer : c.answer ≡ metadata got
  pub brokers : 1 ≤ got.brokers
  pub entry : TopicMetadata
  pub found : topic_of topic got.topics ≡ some entry
  pub sound : entry.error_code ≡ 0
  pub partitions : 1 ≤ entry.partitions

checked-none : (e : Option String) → checked e ≡ connected tt → e ≡ none
checked-none none h = refl
checked-none (some text) h = cc

check_partitions_sound :
    (o : Option TopicMetadata)
    → check_partitions o ≡ none
    → (t : TopicMetadata) × (o ≡ some t) × (t.error_code ≡ 0) × (1 ≤ t.partitions)
check_partitions_sound none h = cc
check_partitions_sound (some t) h = (t, refl, ground arith, ground arith)

check_metadata_sound :
    (topic : String) (later : Option String) (answer : Answer)
    → check_metadata topic later answer ≡ none
    → (later ≡ none)
      × (m : Metadata) × (answer ≡ metadata m)
      × (1 ≤ m.brokers)
      × (check_partitions (topic_of topic m.topics) ≡ none)
check_metadata_sound topic later (no_metadata text) h = cc
check_metadata_sound topic (some text) (metadata m) h = cc
check_metadata_sound topic none (metadata m) h = (refl, m, refl, ground arith, ground arith)

check_topic-Usable :
    (bootstrap_servers topic : String) (c : Connection)
    → (bootstrap_servers == "") ≡ false
    → c.refusal ≡ none
    → check_topic topic (pos 5000000000) c.before c.later c.answer ≡ none
    → Usable bootstrap_servers topic c
unfolding check_topic
check_topic-Usable bootstrap_servers topic c servers client h =
    let asked : (c.before ≡ none) × (check_metadata topic c.later c.answer ≡ none) = ground arith in
    let (before, accepted) = asked in
    let (later, m, answer, brokers, partitions) =
      check_metadata_sound topic c.later c.answer accepted in
    let (t, found, sound, some_partitions) = check_partitions_sound _ partitions in
    record {
      servers = servers;
      named = ground arith;
      client = client;
      in_time = (before, later);
      got = m;
      answer = answer;
      brokers = brokers;
      entry = t;
      found = found;
      sound = sound;
      partitions = some_partitions;
    }

created_sound :
    (topic : String) (c : Connection) (producer : Option String)
    → created topic c producer ≡ connected tt
    → (producer ≡ none) × (check_topic topic (pos 5000000000) c.before c.later c.answer ≡ none)
created_sound topic c (some text) h = cc
created_sound topic c none h = (refl, checked-none _ h)

connect-Usable :
    (bootstrap_servers topic : String) (c : Connection)
    → connect bootstrap_servers topic c ≡ connected tt
    → Usable bootstrap_servers topic c
unfolding connect new_producer
connect-Usable bootstrap_servers topic c h =
    let (made, accepted) = created_sound topic c (new_producer bootstrap_servers c.refusal) h in
    check_topic-Usable bootstrap_servers topic c (ground arith) (ground arith) accepted

-- With a producer after a usable attempt, or with an error.
abbrev pub Started : String → String → Connection → Returned Unit String → Type 0
Started bootstrap_servers topic c r =
    ((r ≡ record { value = some tt; error = none }) × Usable bootstrap_servers topic c)
    ⊎ ((e : String) × (r ≡ record { value = none; error = some e }))

ends-Started :
    (bootstrap_servers topic : String) (connections : ℕ → Connection) (done : ℕ → Bool)
    (ctx_err : String) (attempts attempt : ℕ) (r : Returned Unit String)
    → EndsAt (λ i. connect bootstrap_servers topic (connections i)) done ctx_err attempts attempt r
    → Started bootstrap_servers topic (connections attempt) r
ends-Started bootstrap_servers topic connections done ctx_err attempts attempt _ (succeeds e) =
    inl (refl, connect-Usable bootstrap_servers topic (connections attempt) e)
ends-Started bootstrap_servers topic connections done ctx_err attempts attempt _ (exhausts e f) =
    inr (_, refl)
ends-Started bootstrap_servers topic connections done ctx_err attempts attempt _ (stops e f g) =
    inr (_, refl)

-- After one of twelve attempts at most, the publisher goes on with a producer, and then that attempt
-- has found the servers and the topic usable; or it ends with an error and without a producer.
pub start-Usable :
    (bootstrap_servers topic : String) (connections : ℕ → Connection) (done : ℕ → Bool)
    (ctx_err : String)
    → (attempt : ℕ) × (1 ≤ attempt)
      × (attempt ≤ 12)
      × Started bootstrap_servers topic
          (connections attempt)
          (start bootstrap_servers topic connections done ctx_err)
unfolding start
start-Usable bootstrap_servers topic connections done ctx_err =
    let (attempt, one, few, _, ends) =
      retry-Tried (λ i. connect bootstrap_servers topic (connections i)) done ctx_err 11 in
    (
      attempt,
      one,
      few,
      ends-Started bootstrap_servers topic connections done ctx_err 12 attempt _ ends,
    )

-- ===== src/Runtime.antt =====
-- What the Go code runs on: its errors, the libraries and services behind it, and the actions that
-- change the database, in the order in which they are made.
pub mod Ends
pub mod Autocommit
pub mod Failures
pub mod Uuids
pub mod Reachable
use Prim.Native.Char.{Char}
use go_order_service.Prelude.{
  ℕ, suc, String, ◌≡◌, Bool, Option, none, some, List, ◌∷◌, if◌then◌else◌, or_else,
}
use go_order_service.Encoding.{Json, Bytes}
use go_order_service.Schema.{Db, PaymentStatus, EventType}

pub data Error : Type 0 where
  -- the sentinels of internal/service
  invalid_input email_already_exists invalid_credentials invalid_refresh_token : Error
  idempotency_key_required idempotency_conflict : Error
  order_forbidden order_invalid_status order_not_found : Error
  -- `pgx.ErrNoRows`, and a `pgconn.PgError` with its code
  no_rows : Error
  pg_error : String → Error
  -- a text that `pgtype.UUID.Scan` refuses
  bad_uuid : Error
  -- a statement or a `Begin` that does not reach the server, and a `Commit` without an answer
  unavailable commit_unanswered : Error
  -- `bcrypt.GenerateFromPassword`, `rand.Read`, and the signing of a token
  password_not_hashed no_randomness token_not_signed : Error
  -- `auth.ErrInvalidToken`, `consumer.ErrInvalidMessage`
  invalid_token invalid_message : Error
  -- an error of the Kafka client or of the code around it, by its text
  kafka_error : String → Error

pub data Result (A : Type 0) : Type 0 where
  ok : A → Result A
  err : Error → Result A

-- What becomes of a `Commit`: the server commits and says so, rolls back, or commits and its
-- answer is lost.
pub data CommitOutcome : Type 0 where
  committed rolled_back answer_lost : CommitOutcome

-- What becomes of a message that the Kafka client is given: it is delivered, it is not and the error
-- says why, or it is delivered and an error is reported all the same.
pub data DeliveryOutcome : Type 0 where
  delivered : DeliveryOutcome
  undelivered unconfirmed : String → DeliveryOutcome

-- A message on a Kafka topic.
pub record Published : Type 0 where
  pub topic : String
  pub key : String
  pub value : Json

-- The libraries and services that the code calls. Each call of one that has an outcome of its own
-- is numbered, and the outcome is a function of the number.
pub record Env : Type 0 where
  -- `pgtype.UUID.Scan`, `UUID.String`, and `uuid.Parse` of github.com/google/uuid
  pub scan : String → Option ℕ
  pub render : ℕ → String
  pub parse : String → Option ℕ
  pub scan-render : (u : ℕ) → scan (render u) ≡ some u
  pub parse-render : (u : ℕ) → parse (render u) ≡ some u
  pub parse-nil : parse "" ≡ none
  -- `uuid.New`
  pub fresh : ℕ → ℕ
  -- the clock: `time.Now`, and `NOW()` of the server
  pub now : ℕ → ℕ
  -- whether a statement or a `Begin` fails to reach the server
  pub fault : ℕ → Bool
  pub commit : ℕ → CommitOutcome
  pub delivery : ℕ → DeliveryOutcome
  -- `unicode.ToLower`, `unicode.ToUpper`
  pub lower : Char → Char
  pub upper : Char → Char
  -- SHA-256 in hexadecimal digits, and RFC 3339
  pub sha256_hex : Bytes → String
  pub format_time : ℕ → String

-- The counters of internal/metrics/metrics.go: an increment adds its label to the list.
pub data Metric : Type 0 where
  orders_created : Metric
  payments : PaymentStatus → Metric
  outbox_events_published outbox_events_failed : EventType → Metric
  consumer_events_processed consumer_events_duplicate : String → Metric
  rate_limit_allowed rate_limit_blocked : String → Metric
  http_requests : String → String → ℕ → Metric

-- `tx` is the time at which the transaction began, if one is open; `ticks` numbers the calls;
-- `published` has the messages on Kafka, the latest first.
pub record World : Type 0 where
  pub db : Db
  pub tx : Option ℕ
  pub ticks : ℕ
  pub metrics : List Metric
  pub published : List Published

abbrev pub tick : World → World
tick w = record w { ticks = suc w.ticks }

abbrev pub Action : Type 0 → Type 0
Action A = World → Result A × World

abbrev pub pure : {A : Type 0} → A → Action A
pure a w = (ok a, w)

abbrev pub raise : {A : Type 0} → Error → Action A
raise e w = (err e, w)

abbrev pub continue : {A B : Type 0} → Result A × World → (A → Action B) → Result B × World
continue (ok a, w) f = f a w
continue (err e, w) f = (err e, w)

infixl 5 ◌>>=◌ ◌>>◌
unfoldable pub ◌>>=◌ : {A B : Type 0} → Action A → (A → Action B) → Action B
◌>>=◌ m f w = continue (m w) f

abbrev pub ◌>>◌ : {A B : Type 0} → Action A → Action B → Action B
m >> k = m >>= λ _. k

-- A call whose error the caller looks at.
unfoldable pub attempt : {A : Type 0} → Action A → Action (Result A)
attempt m w = let (r, w') = m w in (ok r, w')

-- A call whose every error the caller replaces.
unfoldable pub or_raise : {A : Type 0} → Action A → Error → Action A
or_raise m e w = let (r, w') = m w in elim r [ ok a ↦ (ok a, w') | err _ ↦ (err e, w') ]

abbrev pub require : {A : Type 0} → Option A → Error → Action A
require none e = raise e
require (some a) e = pure a

abbrev pub count_metric : Metric → Action Unit
count_metric m w = (ok tt, record w { metrics = m ∷ w.metrics })

-- An SQL statement, at the server's time: the new database and its rows, or an error.
abbrev pub Statement : Type 0 → Type 0
Statement A = ℕ → Db → Result (A × Db)

abbrev pub run_query : {A : Type 0} → Result (A × Db) → Action A
run_query (ok (a, db)) w = (ok a, record w { db = db })
run_query (err e) w = (err e, w)

-- The implicit commit of a statement outside a transaction: what it wrote may be rolled back, or be
-- there without an answer.
abbrev pub autocommit : {A : Type 0} → Db → CommitOutcome → Result A × World → Result A × World
autocommit before committed r = r
autocommit before rolled_back (r, w) = (err commit_unanswered, record w { db = before })
autocommit before answer_lost (r, w) = (err commit_unanswered, w)

module _ (env : Env) where
  -- `uuid.NewString`.
  unfoldable pub new_uuid : Action String
  new_uuid w = (ok (env.render (env.fresh w.ticks)), tick w)

  -- `NOW()` is the time at which the transaction began; outside one, each statement is its own.
  unfoldable pub query : {A : Type 0} → Statement A → Action A
  query statement w =
      if env.fault w.ticks
      then (err unavailable, tick w)
      else run_query (statement (or_else w.tx (env.now w.ticks)) w.db) (tick w)

  -- A statement that writes outside a transaction. (One that only reads, or that stands in a
  -- transaction, which a lost answer rolls back, leaves the same behind whether the statement or its
  -- answer is lost: that is `query`.)
  unfoldable pub execute : {A : Type 0} → Statement A → Action A
  execute statement w =
      if env.fault w.ticks
      then (err unavailable, tick w)
      else autocommit w.db (env.commit w.ticks)
          (run_query (statement (env.now w.ticks) w.db) (tick w))

  -- `id.Scan(text)` of a `pgtype.UUID`.
  unfoldable pub scan_uuid : String → Action ℕ
  scan_uuid text = require (env.scan text) bad_uuid

abbrev pub conclude : {A : Type 0} → Db → A → CommitOutcome → World → Result A × World
conclude before a committed w = (ok a, record (tick w) { tx = none })
conclude before a rolled_back w =
    (err commit_unanswered, record (tick w) { db = before; tx = none })
conclude before a answer_lost w = (err commit_unanswered, record (tick w) { tx = none })

-- After the body: the deferred `Rollback`, or `Commit`.
abbrev pub settle : {A : Type 0} → Db → (ℕ → CommitOutcome) → Result A × World → Result A × World
settle before outcome (err e, w) = (err e, record w { db = before; tx = none })
settle before outcome (ok a, w) = conclude before a (outcome w.ticks) w

-- `Store.WithTx`.
unfoldable pub with_tx : Env → {A : Type 0} → Action A → Action A
with_tx env body w =
    if env.fault w.ticks
    then (err unavailable, tick w)
    else settle w.db env.commit (body (record (tick w) { tx = some (env.now w.ticks) }))

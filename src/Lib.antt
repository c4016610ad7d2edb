-- ===== src/Lib.antt =====
-- An order service in Go: users create, pay and cancel orders over HTTP; each change is written to
-- PostgreSQL together with an outbox event; a publisher process sends the events to Kafka; a consumer
-- process records one notification for each event.
--
-- The parts, and the files that model them:
--   Prelude, Prelude/*    lists as tables, sorting, texts, integers, Boolean tests and equality
--   Encoding              JSON values and byte slices
--   Schema                the tables of migrations/*.sql and the rows of internal/store/sqlc/models.go
--   Runtime, Runtime/*    errors, the libraries behind the code (`Env`), actions on the database,
--                         `WithTx` of internal/store/store.go, and the rules for how an action ends
--   Sqlc, Sqlc/*          the queries of internal/store/sqlc/*.sql.go, with the constraints of the
--                         migrations
--   Store, Store/*        the methods of internal/store/store.go; Writes and Reads say what they leave
--   Orders, Orders/*      internal/service/order_service.go and idempotency.go: `CreateOrder`,
--                         `PayOrder`, `CancelOrder`, `ListOrders` and `GetOrder`; Ledger has the
--                         invariant, History sequences of calls, Notices whom the events are for,
--                         Statuses the life of an order, Refusals what the guards keep out
--   Messages, Messages/*  the JSON of an outbox event, as internal/publisher writes it and
--                         internal/consumer reads it
--   Consumer, Consumer/*  `EventHandler.Handle` of internal/consumer/event_consumer.go, the record
--                         handler of cmd/consumer/main.go, and `Consumer.Run` of
--                         internal/kafka/consumer.go
--   Publisher, Publisher/*  `OutboxPublisher` of internal/publisher/outbox_publisher.go, `Producer` of
--                         internal/kafka/producer.go, and how cmd/publisher/main.go connects to Kafka
--   Auth, Auth/*          internal/service/auth_service.go with internal/auth: registration, login,
--                         renewal of access tokens, logout
--   RedisClient           what becomes of a Redis command, and the state of the API server
--   DistributedLock, DistributedLock/*  internal/distributedlock/lock.go, over an interface of Redis
--   RateLimit, RateLimit/*  internal/ratelimit/limiter.go, over an interface of Redis
--   Api, Api/*            internal/api: Requests and Responses have the JSON of the bodies, Orders,
--                         Auth and Locks the handlers, Middleware what stands in front of them,
--                         Server and Router the routes of router.go; Frames, ReadOnly, Invariants,
--                         Refinement, Access and Exclusion have proofs over whole requests
--   AppStart, AppStart/*  internal/appstart/appstart.go
--   Config, Config/*      internal/config/config.go
--   System, System/*      the three programs on one database, in any order; Notices and Delivery
--                         follow an event from the outbox to the consumer
--   Progress, in several  what a component does while nothing outside fails
--   Examples, Examples/*  concrete libraries, requests and databases
--
-- How the code corresponds: a method that returns an error is an action, a function from the state
-- of the world to a result and the next state. The world has the database, whether a transaction is
-- open, the messages on Kafka, the counters, and the number of the next outside call. Each call that
-- can fail outside the code asks `Env` what becomes of it, by that number: a statement that does not
-- reach the server, a commit that is rolled back or whose answer is lost, a message that is not
-- delivered. A statement that writes outside a transaction commits by itself, with the same three
-- ends. So a theorem for every `Env` holds whatever fails. Where a text of a UUID is scanned,
-- rendered or parsed, `Env` has the library's function with its documented round trip.
--
-- An HTTP handler is a function from a request and the state to a response and the next state, where
-- the state is the world and the Redis store. The router of chi, the metrics page of Prometheus and
-- the Redis commands are parameters with their documented behaviour; a Redis command may not arrive,
-- lose its answer, or be sent again by the client.
--
-- Recursion is on lists, texts and numbers of rounds: `Retry` has one round for each attempt, and the
-- digits of a number `n` are written in `n + 1` rounds at most, of which each divides it by ten, so
-- both are enough. The poll loop, the publisher's loop and the requests are lists of any length.
-- Transactions, requests and the calls of the limiter are made one after another: what another session
-- does while one is open is not modelled, and so neither are row locks. Attempts of an event, status
-- codes and limits are natural numbers, an amount is an integer; numbers in request bodies are
-- integers, and those beyond `int64` are refused. A text with U+0000 from a client is refused where it
-- is stored in a text column, as PostgreSQL does; a search for one finds nothing, which the callers do
-- not tell from the error. Clocks count microseconds, settings nanoseconds.
--
-- Not modelled: the histogram of request durations, the timeouts of requests and of the release of a
-- lock, and of the programs of cmd everything but the record handler and the connection to Kafka, since
-- they connect libraries to each other. Logs and the wording of wrapped errors are left out.
pub mod Prelude
pub mod Encoding
pub mod Schema
pub mod Runtime
pub mod Sqlc
pub mod Store
pub mod Orders
pub mod Messages
pub mod Consumer
pub mod Publisher
pub mod Auth
pub mod Api
pub mod RedisClient
pub mod DistributedLock
pub mod RateLimit
pub mod AppStart
pub mod Config
pub mod System
mod Examples

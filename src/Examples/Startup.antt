-- ===== src/Examples/Startup.antt =====
-- The properties of the start of the programs.
use go_order_service.Prelude.{
  ℕ, String, ◌≡◌, refl, ◌≤◌, Bool, false, Option, none, [], ◌∷◌, arith, ltb, if◌then◌else◌, ◌==◌,
  string_eq, nat_eq,
}
use go_order_service.Prelude.Int.{ℤ, negsuc}
use go_order_service.AppStart.{Attempt, connected, failed, retry}
use go_order_service.AppStart.Attempts.{Tried, retry-Tried}
use go_order_service.Config.{Environment, load}
use go_order_service.Config.Numbers.{atoi, digits, digits_from}
use go_order_service.Config.Loading.{Sound, load-Sound, load_batch_size}
use go_order_service.Publisher.Producer.{
  metadata, no_metadata, Connection, start, start-Usable, Started,
}

-- A service that is there from the third attempt on.
abbrev third_time : ℕ → Attempt ℕ String
third_time n = if ltb n 3 then failed "not ready" else connected n

abbrev waits : ℕ → Bool
waits n = false

retry-Tried_example : Tried third_time waits "done" 12 (retry third_time waits "done" 12)
retry-Tried_example = retry-Tried third_time waits "done" 11

abbrev no_duration : String → Option ℤ
no_duration s = none

-- A batch size beyond `int32`, and a limit that is no number.
abbrev getenv : String → String
getenv key =
    if key == "PUBLISHER_BATCH_SIZE"
    then "3000000000"
    else (if key == "RATE_LIMIT_REQUESTS_PER_MINUTE" then "many" else "")

abbrev large : Environment
large = record { getenv = getenv; parse_duration = no_duration }

load-Sound_example : Sound (load large)
load-Sound_example = load-Sound large

load_batch_size_example : (load large).publisher_batch_size ≡ negsuc 1294967295
unfolding atoi digits digits_from
load_batch_size_example = load_batch_size large 3000000000 refl refl (omega arith) (omega arith)

-- Brokers that answer from the second attempt on.
abbrev connections : ℕ → Connection
connections n = record {
  refusal = none;
  before = none;
  later = none;
  answer =
      if ltb n 2
      then no_metadata "timed out"
      else metadata (record {
        brokers = 1;
        topics = ("order.events.v1", record { error_code = 0; partitions = 3 }) ∷ [];
      });
}

start-Usable_example :
    (attempt : ℕ) × (1 ≤ attempt)
    × (attempt ≤ 12)
    × Started "localhost:9092" "order.events.v1"
        (connections attempt)
        (start "localhost:9092" "order.events.v1" connections waits "done")
start-Usable_example = start-Usable "localhost:9092" "order.events.v1" connections waits "done"

-- ===== src/Examples.antt =====
-- Test data: the libraries as concrete functions, and requests of the order service.
mod Worlds
mod Orders
mod Progress
mod Consumer
mod Publisher
mod Auth
mod DistributedLock
mod RateLimit
mod Startup
mod Server
mod Api
mod Accounts
use Prim.Native.Char.{Char}
use go_order_service.Prelude.{
  ℕ, zero, suc, String, ◌≡◌, refl, sym, true, false, Bool, Option, none, some, [], ◌∷◌, arith,
}
use go_order_service.Prelude.Int.{pos}
use go_order_service.Encoding.{Bytes}
use go_order_service.Schema.{User, empty}
use go_order_service.Runtime.{
  Env, World, CommitOutcome, committed, answer_lost, DeliveryOutcome, delivered,
}
use go_order_service.Runtime.Reachable.{Reachable, Unused}
use go_order_service.Orders.Create.{CreateOrderParams}
use go_order_service.Orders.Pay.{PayOrderParams}
use go_order_service.Orders.Cancel.{CancelOrderParams}

-- The UUID `u` is the text of `u + 1` times one character.
unfoldable pub render : Char → ℕ → String
render c zero = String.◌∷◌ c String.[]
render c (suc u) = String.◌∷◌ c (render c u)

unfoldable pub scan : String → Option ℕ
scan String.[] = none
scan (String.◌∷◌ c String.[]) = some 0
scan (String.◌∷◌ c (String.◌∷◌ d s)) = elim (scan (String.◌∷◌ d s)) [
  | none ↦ none
  | some u ↦ some (suc u)
]

pub scan-render : (c : Char) (u : ℕ) → scan (render c u) ≡ some u
unfolding scan render
scan-render c zero = refl
scan-render c (suc zero) = refl
scan-render c (suc (suc u)) = rw (scan-render c (suc u)) refl

pub scan-nil : scan "" ≡ none
unfolding scan
scan-nil = refl

abbrev pub same_char : Char → Char
same_char c = c

abbrev pub never : ℕ → Bool
never n = false

abbrev pub always_committed : ℕ → CommitOutcome
always_committed n = committed

abbrev pub always_lost : ℕ → CommitOutcome
always_lost n = answer_lost

abbrev pub always_delivered : ℕ → DeliveryOutcome
always_delivered n = delivered

abbrev pub identity : ℕ → ℕ
identity n = n

abbrev pub no_digest : Bytes → String
no_digest b = "digest"

abbrev pub no_time : ℕ → String
no_time t = "time"

-- Every statement reaches the server. The digit decides whether mock payments succeed.
abbrev pub env_of : Char → (ℕ → CommitOutcome) → Env
env_of c outcome = record {
  scan = scan;
  render = render c;
  parse = scan;
  scan-render = scan-render c;
  parse-render = scan-render c;
  parse-nil = scan-nil;
  fresh = identity;
  now = identity;
  fault = never;
  commit = outcome;
  delivery = always_delivered;
  lower = same_char;
  upper = same_char;
  sha256_hex = no_digest;
  format_time = no_time;
}

abbrev pub env : Env
env = env_of "1" always_committed

abbrev pub declining : Env
declining = env_of "0" always_committed

-- The answer of every commit is lost.
abbrev pub lossy : Env
lossy = env_of "1" always_lost

-- The user with the UUID 7.
abbrev pub customer : String
customer = "11111111"

abbrev pub ada : User
ada = record {
  id = 7;
  email = "ada@example.com";
  password_hash = "hash";
  role = "customer";
  created_at = 0;
  updated_at = 0;
}

abbrev pub start : World
start = record {
  db = record empty { users = ada ∷ [] };
  tx = none;
  ticks = 0;
  metrics = [];
  published = [];
}

abbrev pub create_request : CreateOrderParams
create_request = record {
  user_id = customer;
  idempotency_key = "first";
  method = "POST";
  path = "/api/v1/orders";
  amount_cents = pos 1250;
  currency = "EUR";
  description = "books";
}

-- The payment and the cancellation of the order that this request makes.
abbrev pub pay_request : PayOrderParams
pay_request = record {
  user_id = customer;
  role = "customer";
  order_id = "111";
  idempotency_key = "second";
  method = "POST";
  path = "/api/v1/orders/111/pay";
}

abbrev pub cancel_request : CancelOrderParams
cancel_request = record { user_id = customer; role = "customer"; order_id = "111" }

pub start-Unused : Unused env start.db
start-Unused = record {
  orders = λ n. refl;
  payments = λ n. refl;
  events = λ n. refl;
  keys = λ n. refl;
  deliveries = λ n. refl;
}

pub env-Reachable : Reachable env
env-Reachable = record { answers = λ n. refl; commits = λ n. refl }

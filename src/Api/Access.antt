-- ===== src/Api/Access.antt =====
-- Who gets through to the handlers.
pub mod Turned
use go_order_service.Prelude.{ℕ, Bool, true, false, string_eq}
use go_order_service.Api.Server.{
  Endpoint, me, create_order, list_orders, get_order, pay_order, cancel_order, RouterConfig,
}
use go_order_service.Api.Router.{has_limiter}
use go_order_service.Api.Access.Turned.{after_limiter}

-- The routes behind `requireAuth`.
abbrev pub is_protected : Endpoint → Bool
is_protected me = true
is_protected create_order = true
is_protected list_orders = true
is_protected (get_order id) = true
is_protected (pay_order id) = true
is_protected (cancel_order id) = true
is_protected _ = false

module _ {Store : Type 0} (server : RouterConfig Store) where
  -- The call by which the token of a request is tested that comes at `call`.
  abbrev pub token_read : ℕ → ℕ
  token_read call = after_limiter (has_limiter server) server.rate_limit_requests_per_minute call

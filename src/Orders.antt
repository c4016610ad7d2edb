-- ===== src/Orders.antt =====
-- internal/service/order_service.go and idempotency.go: the order service. Each method is an action;
-- `json.Marshal` of the structs that it is given returns no error.
pub mod Payloads
pub mod Create
pub mod Pay
pub mod Cancel
pub mod Read
pub mod Ledger
pub mod History
pub mod Notices
pub mod Statuses
pub mod Refusals

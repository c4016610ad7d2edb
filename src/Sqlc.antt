-- ===== src/Sqlc.antt =====
-- The statements of internal/store/sqlc/*.sql.go, read from their SQL text and from the constraints
-- of migrations/*.sql. A CHECK is tested first, then the unique keys, then the foreign keys.
pub mod Users
pub mod RefreshTokens
pub mod Orders
pub mod Payments
pub mod Idempotency
pub mod Outbox
pub mod Consumption

-- ===== src/Store.antt =====
-- internal/store/store.go: the statements with their texts scanned to UUIDs. `Store.WithTx` is
-- `Runtime.with_tx`, and a `*Store` is the environment.
pub mod Users
pub mod Orders
pub mod Writes
pub mod Reads
pub mod Progress
pub mod Idempotency
pub mod Outbox
pub mod Consumption

-- ===== src/Broker.antt =====
-- src/broker/: the storage layer, its types, its retry loop and the PostgreSQL implementation.
pub mod Status
pub mod Types
pub mod Retry
pub mod Constraints
pub mod Interface
pub mod Postgres

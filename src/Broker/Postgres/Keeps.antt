-- ===== src/Broker/Postgres/Keeps.antt =====
-- Proofs on the invariant and the history of the tables, by transaction of src/broker/pg_broker.cpp.
pub mod Cancelling
pub mod Reporting
pub mod Creation
pub mod Polling
pub mod Candidates
pub mod Dispatch
pub mod Once
pub mod Sweeping

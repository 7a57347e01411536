-- ===== src/Broker/Postgres/Effects.antt =====
-- Proofs on the outcomes of the transactions of src/broker/pg_broker.cpp.
pub mod Sweep
pub mod Again
pub mod Task
pub mod Report
pub mod Stray
pub mod Create
pub mod Agents

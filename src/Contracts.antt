-- ===== src/Contracts.antt =====
-- inkfoot/contracts: the schema of Token Contracts, the enforcer and its wiring to the calls.
mod Tests
pub mod Result
pub mod Schema
pub mod Parse
pub mod Resolution
pub mod Ladder
pub mod Estimator
pub mod Enforcer
pub mod Runtime

-- ===== src/Client/Examples.antt =====
-- client: runs of the client's code on fixed inputs.
pub mod Setups
pub mod Operations
pub mod Requests
pub mod Sessions
pub mod Metrics

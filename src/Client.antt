-- ===== src/Client.antt =====
-- client: the high-level client over the fi package.
pub mod Setup
pub mod Operation
pub mod Dispatch
pub mod Prepare
pub mod Session
pub mod Telemetry
pub mod Metrics
pub mod Emit
pub mod Examples

-- ===== src/Capi.antt =====
-- internal/capi: error values, versions and lists of fi_info. The calls of the C library are parameters.
pub mod Errors
pub mod Version
pub mod Info
pub mod Handle
pub mod Queue
pub mod Vector
pub mod Calls
pub mod Fabric
pub mod Region
pub mod Name
pub mod Examples

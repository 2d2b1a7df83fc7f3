-- ===== src/Fi/Examples.antt =====
-- fi: runs of the contexts, the regions, the pool and the posts on fixed inputs.
pub mod Contexts
pub mod Discoveries
pub mod Regions
pub mod Opens
pub mod Pools
pub mod Posts
pub mod Queues
pub mod Waits

-- ===== src/Fi.antt =====
-- fi: completion contexts, waiting, memory registration and the post operations over them.
pub mod Context
pub mod Discover
pub mod Memory
pub mod Pool
pub mod Post
pub mod Queue
pub mod Vector
pub mod Wait
pub mod Open
pub mod Examples

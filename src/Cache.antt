-- ===== src/Cache.antt =====
-- internal/cache: the in-memory cache.
pub mod Pattern
pub mod Store
pub mod Invalidate
pub mod Eviction
pub mod Invariant
pub mod Reads
pub mod Capacity
pub mod Invalidation
pub mod Trace
mod Tests

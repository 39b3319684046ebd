-- ===== src/Cache.antt =====
-- core/src/cache.rs: in-process caches. A lock makes each call one step; the clock and a duration
-- are numbers of nanoseconds, and a hash map is an association list.
pub mod Ttl
pub mod Memory
pub mod ReadThrough
pub mod Recency
mod Tests
